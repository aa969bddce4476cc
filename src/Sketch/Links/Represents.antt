-- ===== src/Sketch/Links/Represents.antt =====
-- The buckets in the order of their keys, as a plain sorted list, and what it is for a
-- `SketchHashMap` to represent them.
use chalk_metrics.Prelude.{
  ℕ, ◌≡◌, refl, ◌∙◌, inl, inr, Bool-cases, Bool, true, false, ◌||◌, List, [], ◌∷◌, some, none, ◌==◌,
  length, Ordering, arith, ==_refl, ==_ne,
}
use chalk_metrics.Prelude.HashMap.{HashMap, get}
use chalk_metrics.Prelude.Int.{u64_add}
use chalk_metrics.Sketch.Key.{
  SketchHashKey, invalid, key_eq, key_beq_iff, partial_cmp, IsInRange, Lt, reverse_order,
  compact_key,
}
use chalk_metrics.Sketch.Key.Order.{cmp_refl, cmp_flip, cmp_trans}
use chalk_metrics.Sketch.Links.{SketchHashEntry, SketchHashMap}

abbrev pub Buckets : Type 0
Buckets = List (SketchHashKey × ℕ)

-- The key of the first bucket.
abbrev pub first : Buckets → SketchHashKey
first [] = invalid
first ((k, c) ∷ l) = k

-- The keys rise, are no `Invalid`, and hold numbers in the range of an `i64`.
abbrev pub IsSorted : Buckets → Type 0
IsSorted [] = Unit {0}
IsSorted ((k, c) ∷ l) = IsInRange k × Lt k (first l) × IsSorted l

unfoldable pub has : SketchHashKey → Buckets → Bool
has k [] = false
has k ((j, c) ∷ l) = (j == k) || has k l

-- One more count of `n` at `k`.
unfoldable pub add_to : SketchHashKey → ℕ → Buckets → Buckets
add_to k n [] = (k, u64_add 0 n) ∷ []
add_to k n ((j, c) ∷ l) = elim (partial_cmp k j) [
  | Ordering.lt ↦ (k, u64_add 0 n) ∷ (j, c) ∷ l
  | Ordering.eq ↦ (j, u64_add c n) ∷ l
  | Ordering.gt ↦ (j, c) ∷ add_to k n l
]

-- Every bucket counted again under its compacted key.
unfoldable pub compacted : Buckets → Buckets
compacted [] = []
compacted ((k, c) ∷ l) = add_to (compact_key k) c (compacted l)

-- The entries of the listed buckets, each linked to the next.
abbrev pub IsLinked : HashMap SketchHashKey SketchHashEntry → Buckets → Type 0
IsLinked m [] = Unit {0}
IsLinked m ((k, c) ∷ l) = (get k m ≡ some (record { count = c; next = first l })) × IsLinked m l

pub record Represents (m : SketchHashMap) (l : Buckets) : Type 0 where
  pub head : m.head ≡ first l
  pub linked : IsLinked m.map l
  pub sorted : IsSorted l
  pub counted : length m.map ≡ length l
  pub only : (k : SketchHashKey) → has k l ≡ false → get k m.map ≡ none

pub lt_irrefl : (k : SketchHashKey) → Lt k k → ⊥
lt_irrefl k h = cc (cmp_refl k)

pub lt-gt : (a b : SketchHashKey) → Lt a b → partial_cmp b a ≡ Ordering.gt
unfolding reverse_order
lt-gt a b h = rw (cmp_flip a b, h)

pub gt-lt : (a b : SketchHashKey) → partial_cmp a b ≡ Ordering.gt → Lt b a
unfolding reverse_order
gt-lt a b h = rw (cmp_flip a b, h)

pub ne_of_lt : (a b : SketchHashKey) → Lt a b → (a == b) ≡ false
ne_of_lt a b h = ==_ne a b λ e. lt_irrefl b (rw e at h)

pub ne_of_gt : (a b : SketchHashKey) → Lt b a → (a == b) ≡ false
ne_of_gt a b h = ==_ne a b λ e. lt_irrefl b (rw e at h)

-- No listed key lies below the first.
pub has-below : (k : SketchHashKey) (l : Buckets) → IsSorted l → Lt k (first l) → has k l ≡ false
unfolding has
has-below k [] s h = refl
has-below k ((j, c) ∷ l) s h =
    rw (ne_of_gt j k h) (has-below k l s.2 (cmp_trans k j (first l) h s.1))

pub IsLinked-get :
    (m : HashMap SketchHashKey SketchHashEntry) (k : SketchHashKey) (l : Buckets)
    → IsLinked m l
    → has k l ≡ true
    → (e : SketchHashEntry) × (get k m ≡ some e)
unfolding has
IsLinked-get m k [] ln h = cc
IsLinked-get m k ((j, c) ∷ l) ln h = elim (Bool-cases (j == k)) [
  | inl same ↦ (record { count = c; next = first l }, rw ((key_beq_iff j k).0 same) at ln.0)
  | inr apart ↦ IsLinked-get m k l ln.1 (rw apart at h)
]

-- The entries are read through the map alone.
pub IsLinked-frame :
    (m n : HashMap SketchHashKey SketchHashEntry) (l : Buckets)
    → ((j : SketchHashKey) → has j l ≡ true → get j n ≡ get j m)
    → IsLinked m l
    → IsLinked n l
unfolding has
IsLinked-frame m n [] h ln = tt
IsLinked-frame m n ((k, c) ∷ l) h ln =
    (h k (rw (==_refl k)) ∙ ln.0, IsLinked-frame m n l (λ j p. h j (ground arith)) ln.1)
