-- ===== src/Sketch/Links/Walk.antt =====
-- src/aggregator/sketch.rs, `SketchHashMap::entry`: where the walk along the links stops.
use Prim.Native.Nat.{zero}
use chalk_metrics.Prelude.{
  ℕ, suc, ◌<◌, ◌≡◌, ◌≢◌, ==_ne, sym, ap, ◌∙◌, true, false, [], ◌∷◌, ◌==◌, length, arith, inl, inr,
  Returns, some, ==_refl, Ordering-cases,
}
use chalk_metrics.Prelude.HashMap.{HashMap, get}
use chalk_metrics.Prelude.Int.{u64_add}
use chalk_metrics.Sketch.Key.{SketchHashKey, invalid, key_eq, key_beq_iff, partial_cmp, Lt}
use chalk_metrics.Sketch.Key.Order.{cmp_eq}
use chalk_metrics.Sketch.Links.{SketchHashEntry, walk}
use chalk_metrics.Sketch.Links.AddTo.{add_to_lt, add_to_gt}
use chalk_metrics.Sketch.Links.Represents.{
  Buckets, first, IsSorted, has, add_to, IsLinked, IsLinked-frame, gt-lt, has-below, ne_of_gt,
  ne_of_gt,
}

-- A key below the first is none of the listed ones.
pub below-ne :
    (i j : SketchHashKey) (l : Buckets) → IsSorted l → Lt i (first l) → has j l ≡ true → i ≢ j
below-ne i j l s h p e = cc (has-below i l s h, ap (λ x. has x l) e)

pub absent-ne : (k j : SketchHashKey) (c : ℕ) (l : Buckets) → has k ((j, c) ∷ l) ≡ false → k ≢ j
unfolding has
absent-ne k j c l h e = ground (arith, (key_beq_iff j k).1 (sym e))

pub absent-tail :
    (k j : SketchHashKey) (c : ℕ) (l : Buckets) → has k ((j, c) ∷ l) ≡ false → has k l ≡ false
unfolding has
absent-tail k j c l h = ground arith

abbrev pub Table : Type 0
Table = HashMap SketchHashKey SketchHashEntry

-- Where the walk stops: `p` is the last key below, and a map that differs at `p` and at the new key
-- alone, in the new links, is linked as the list with the new key.
abbrev pub Stops : Table → SketchHashKey → ℕ → Buckets → SketchHashKey × SketchHashKey → Type 0
Stops m key n l (p, s) =
    (has p l ≡ true)
    × (Lt p key)
    × ((e : SketchHashEntry)
        → get p m ≡ some e
        → (t : Table)
        → ((j : SketchHashKey) → (p == j) ≡ false → (key == j) ≡ false → get j t ≡ get j m)
        → get p t ≡ some (record e { next = key })
        → get key t ≡ some (record { count = u64_add 0 n; next = s })
        → IsLinked t (add_to key n l))

module _ (m : Table) (key : SketchHashKey) (n : ℕ) where
  -- The walk ends before the first key above.
  stop-Stops :
      (prev : SketchHashKey) (c : ℕ) (l : Buckets)
      → IsLinked m ((prev, c) ∷ l)
      → IsSorted ((prev, c) ∷ l)
      → Lt prev key
      → Lt key (first l)
      → Stops m key n ((prev, c) ∷ l) (prev, first l)
  stop-Stops prev c l ln s below above = (
    unfold has in rw (==_refl prev),
    below,
    λ e g t same gp gk.
        rw (add_to_gt key n prev c l below, add_to_lt key n l above)
          (
            ground arith,
            (
              gk,
              IsLinked-frame m t l
                  (λ j h.
                    same j (==_ne prev j (below-ne prev j l s.2 s.1 h))
                      (==_ne key j (below-ne key j l s.2 above h)))
                  ln.1,
            ),
          ),
  )

  -- The walk goes on past a key below.
  pass-Stops :
      (prev : SketchHashKey) (c : ℕ) (j : SketchHashKey) (d : ℕ) (l : Buckets)
      (r : SketchHashKey × SketchHashKey)
      → IsLinked m ((prev, c) ∷ (j, d) ∷ l)
      → IsSorted ((prev, c) ∷ (j, d) ∷ l)
      → Lt prev key
      → Lt j key
      → Stops m key n ((j, d) ∷ l) r
      → Stops m key n ((prev, c) ∷ (j, d) ∷ l) r
  pass-Stops prev c j d l (p, q) ln s below above (here, low, keeps) = (
    unfold has in ground arith,
    low,
    λ e g t same gp gk. rw (add_to_gt key n prev c ((j, d) ∷ l) below) (
      same prev (==_ne p prev λ e. below-ne prev p ((j, d) ∷ l) s.2 s.1 here (sym e))
            (ne_of_gt key prev below)
          ∙ ln.0
          ∙ ap (λ x. some (record { count = c; next = x })) first_same,
      keeps e g t same gp gk,
    ),
  )
    where
      first_same : j ≡ first (add_to key n ((j, d) ∷ l))
      first_same = ap first (sym (add_to_gt key n j d l above))

  pub walk-Stops :
      (fuel : ℕ) (prev : SketchHashKey) (c : ℕ) (l : Buckets)
      → Lt key invalid
      → length l < fuel
      → IsLinked m ((prev, c) ∷ l)
      → IsSorted ((prev, c) ∷ l)
      → Lt prev key
      → has key l ≡ false
      → Returns (walk fuel m key prev (first l)) (Stops m key n ((prev, c) ∷ l))
  unfolding walk
  walk-Stops zero prev c l valid f ln s below absent = absurd (omega arith)
  walk-Stops (suc fuel) prev c [] valid f ln s below absent =
      ((prev, invalid), rw (valid, walk), stop-Stops prev c [] ln s below valid)
  walk-Stops (suc fuel) prev c ((j, d) ∷ l) valid f ln s below absent =
      elim (Ordering-cases (partial_cmp key j)) [
        | inl lt ↦ ((prev, j), rw (lt, walk), stop-Stops prev c ((j, d) ∷ l) ln s below lt)
        | inr (inl eq) ↦ absurd (absent-ne key j d l absent (cmp_eq key j eq))
        | inr (inr gt) ↦
            let (r, run, stops) =
              walk-Stops fuel j d l valid (omega arith) ln.1 s.2 (gt-lt key j gt)
                (absent-tail key j d l absent) in
            (
              r,
              rw (gt, walk, ln.1.0) run,
              pass-Stops prev c j d l r ln s below (gt-lt key j gt) stops,
            )
      ]
