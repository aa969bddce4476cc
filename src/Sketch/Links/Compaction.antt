-- ===== src/Sketch/Links/Compaction.antt =====
-- src/aggregator/sketch.rs: `SketchHashMap::compact` against the sorted list of buckets.
use Prim.Native.Nat.{zero}
use chalk_metrics.Prelude.{
  ℕ, suc, ◌<◌, ◌≡◌, refl, sym, ap, ◌∙◌, [], ◌∷◌, length, arith, inl, inr, Returns,
}
use chalk_metrics.Prelude.HashMap.{get}
use chalk_metrics.Prelude.Int.{u64_add}
use chalk_metrics.Sketch.Key.{SketchHashKey, invalid, key_eq, Lt, compact_key}
use chalk_metrics.Sketch.Key.Compact.{compact_key_mono, compact_key-lt-invalid}
use chalk_metrics.Sketch.Links.{SketchHashMap, compact_from, compact}
use chalk_metrics.Sketch.Links.Walk.{Table}
use chalk_metrics.Sketch.Links.Represents.{
  Buckets, first, IsSorted, compacted, IsLinked, Represents,
}
use chalk_metrics.Sketch.Links.Compacted.{first-compacted, compacted-IsSorted}
use chalk_metrics.Sketch.Links.Rounds.{
  Merges, IsFresh, round-IsFresh, round-Merges, head_absent, one, one-Round, one_run, two,
  two-Round, two_run,
}

compact_key_apart_end :
    (k : SketchHashKey) → Lt k invalid → Lt (compact_key k) (compact_key invalid)
compact_key_apart_end k h = unfold compact_key in compact_key-lt-invalid k h

abbrev Loops : ℕ → Table → Buckets → Type 0
Loops fuel old l =
    (t : Table) → IsFresh l t → Returns (compact_from fuel old (first l) t) (Merges l t)

pass_one :
    (fuel : ℕ) (old : Table) (k : SketchHashKey) (c : ℕ) (l : Buckets)
    → IsLinked old ((k, c) ∷ l)
    → IsSorted ((k, c) ∷ l)
    → Lt (compact_key k) (compact_key (first l))
    → Loops fuel old l
    → Loops (suc fuel) old ((k, c) ∷ l)
pass_one fuel old k c l ln s apart rest t fresh =
    let absent = head_absent k c l t fresh in
    let u = one old k c l t ln s apart in
    let o = one-Round old k c l t ln s apart absent in
    let n = u64_add 0 c in
    let (r, run, done) = rest u (round-IsFresh (compact_key k) n ((k, c) ∷ l) l t u o fresh) in
    (
      r,
      one_run old k c l t ln s apart fuel absent ∙ run,
      round-Merges (compact_key k) n ((k, c) ∷ l) l t u o r done,
    )

pass_two :
    (fuel : ℕ) (old : Table) (k : SketchHashKey) (c : ℕ) (j : SketchHashKey) (d : ℕ) (l : Buckets)
    → IsLinked old ((k, c) ∷ (j, d) ∷ l)
    → IsSorted ((k, c) ∷ (j, d) ∷ l)
    → compact_key k ≡ compact_key j
    → Loops fuel old l
    → Loops (suc (suc fuel)) old ((k, c) ∷ (j, d) ∷ l)
pass_two fuel old k c j d l ln s same rest t fresh =
    let whole : Buckets = (k, c) ∷ (j, d) ∷ l in
    let absent = head_absent k c ((j, d) ∷ l) t fresh in
    let u = two old k c j d l t ln s same in
    let o = two-Round old k c j d l t ln s same absent in
    let n = u64_add (u64_add 0 c) d in
    let (r, run, done) = rest u (round-IsFresh (compact_key k) n whole l t u o fresh) in
    (
      r,
      two_run old k c j d l t ln s same fuel absent ∙ run,
      round-Merges (compact_key k) n whole l t u o r done,
    )

-- The loop reads off the compacted list, and needs one round for each bucket and one to end.
loop-Merges :
    (fuel : ℕ) (old : Table) (l : Buckets)
    → length l < fuel
    → IsLinked old l
    → IsSorted l
    → Loops fuel old l
loop-Merges zero old l f ln s = absurd (omega arith)
loop-Merges (suc fuel) old [] f ln s = λ t fresh. (
  t,
  unfold compact_from in refl,
  (unfold compacted in tt, unfold compacted in omega arith, λ q h. refl),
)
loop-Merges (suc fuel) old ((k, c) ∷ []) f ln s =
    pass_one fuel old k c [] ln s (compact_key_apart_end k s.1)
      (loop-Merges fuel old [] (omega arith) tt tt)
loop-Merges (suc zero) old ((k, c) ∷ (j, d) ∷ l) f ln s = absurd (omega arith)
loop-Merges (suc (suc fuel)) old ((k, c) ∷ (j, d) ∷ l) f ln s =
    elim (compact_key_mono k j s.0 s.2.0 s.1) [
      | inl apart ↦
          pass_one (suc fuel) old k c ((j, d) ∷ l) ln s apart
            (loop-Merges (suc fuel) old ((j, d) ∷ l) (omega arith) ln.1 s.2)
      | inr same ↦
          pass_two fuel old k c j d l ln s same (loop-Merges fuel old l (omega arith) ln.1.1 s.2.2)
    ]

-- On a map that represents a sorted list of buckets, `compact` returns, without a panic, a map
-- that represents the compacted list.
pub compact-Represents :
    (m : SketchHashMap) (l : Buckets)
    → Represents m l
    → Returns (compact m) (λ r. Represents r (compacted l))
unfolding compact
compact-Represents m l rep =
    let (r, run, (ln, len, keep)) =
      loop-Merges (suc (length m.map)) m.map l (omega (arith, rep.counted)) rep.linked rep.sorted []
        (λ q h. unfold get in refl) in
    (
      record { map = r; head = compact_key m.head },
      rw (rep.head, run),
      record {
        head = ap compact_key rep.head ∙ sym (first-compacted l rep.sorted);
        linked = ln;
        sorted = compacted-IsSorted l rep.sorted;
        counted = omega (arith, len);
        only = λ q h. keep q h ∙ (unfold get in refl);
      },
    )
