-- ===== src/Sketch/Links/Compacted.antt =====
-- The sorted list of buckets under compaction.
use mathlib.Core.Path.{ap₂}
use chalk_metrics.Prelude.{ℕ, ◌≡◌, refl, sym, ap, ◌∙◌, [], ◌∷◌, inl, inr}
use chalk_metrics.Prelude.Int.{u64_add, u64_add_comm, u64_add-left_zero}
use chalk_metrics.Sketch.Key.{
  SketchHashKey, invalid, key_eq, partial_cmp, IsInRange, Lt, compact_key,
}
use chalk_metrics.Sketch.Key.Compact.{
  compact_key-IsInRange, compact_key_mono, compact_key_apart, compact_key-lt-invalid,
}
use chalk_metrics.Sketch.Key.Order.{cmp_trans, cmp_refl}
use chalk_metrics.Sketch.Links.AddTo.{add_to_lt, add_to_eq, add_to-IsSorted}
use chalk_metrics.Sketch.Links.Represents.{Buckets, first, IsSorted, add_to, compacted}

-- Every key of a sorted list is below `Invalid`.
pub lt-invalid : (k : SketchHashKey) (c : ℕ) (l : Buckets) → IsSorted ((k, c) ∷ l) → Lt k invalid
lt-invalid k c [] s = s.1
lt-invalid k c ((j, d) ∷ l) s = cmp_trans k j invalid s.1 (lt-invalid j d l s.2)

pub first-IsInRange : (l : Buckets) → IsSorted l → IsInRange (first l)
first-IsInRange [] s = tt
first-IsInRange ((k, c) ∷ l) s = s.0

first-add_to-first :
    (k : SketchHashKey) (n : ℕ) (l : Buckets) → k ≡ first l → first (add_to k n l) ≡ k
first-add_to-first k n [] h = unfold add_to in refl
first-add_to-first k n ((j, c) ∷ l) h =
    rw (add_to_eq k n j c l (ap (partial_cmp k) (sym h) ∙ cmp_refl k)) (sym h)

-- The first compacted key is the compaction of the first key.
pub first-compacted : (l : Buckets) → IsSorted l → first (compacted l) ≡ compact_key (first l)
unfolding compacted
first-compacted [] s = unfold compact_key in refl
first-compacted ((k, c) ∷ l) s =
    elim (compact_key_mono k (first l) s.0 (first-IsInRange l s.2) s.1) [
      | inl apart ↦
          ap first (add_to_lt (compact_key k) c (compacted l) (rw (first-compacted l s.2) apart))
      | inr same ↦
          first-add_to-first (compact_key k) c (compacted l) (same ∙ sym (first-compacted l s.2))
    ]

-- The compaction of two neighbours that stay apart, and of two that merge.
pub compacted_apart :
    (k : SketchHashKey) (c : ℕ) (l : Buckets)
    → IsSorted l
    → Lt (compact_key k) (compact_key (first l))
    → compacted ((k, c) ∷ l) ≡ (compact_key k, u64_add 0 c) ∷ compacted l
unfolding compacted
compacted_apart k c l s h = add_to_lt (compact_key k) c (compacted l) (rw (first-compacted l s) h)

merged_count : (c d : ℕ) → u64_add (u64_add 0 d) c ≡ u64_add (u64_add 0 c) d
merged_count c d = u64_add-left_zero d c ∙ u64_add_comm d c ∙ sym (u64_add-left_zero c d)

pub compacted_merged :
    (k : SketchHashKey) (c : ℕ) (j : SketchHashKey) (d : ℕ) (l : Buckets)
    → IsSorted ((k, c) ∷ (j, d) ∷ l)
    → compact_key k ≡ compact_key j
    → compacted ((k, c) ∷ (j, d) ∷ l) ≡ (compact_key k, u64_add (u64_add 0 c) d) ∷ compacted l
unfolding compacted
compacted_merged k c j d l s h =
    let apart : Lt (compact_key j) (compact_key (first l)) =
      rw h at (compact_key_apart k j (first l) s.0 s.2.0 (first-IsInRange l s.2.2) s.1 s.2.1) in
    ap (add_to (compact_key k) c) (compacted_apart j d l s.2.2 apart)
    ∙ add_to_eq (compact_key k) c (compact_key j) (u64_add 0 d) (compacted l)
        (ap (partial_cmp (compact_key k)) (sym h) ∙ cmp_refl (compact_key k))
    ∙ ap₂ (λ x n. (x, n) ∷ compacted l) (sym h) (merged_count c d)

-- Compacting keeps the list sorted.
pub compacted-IsSorted : (l : Buckets) → IsSorted l → IsSorted (compacted l)
unfolding compacted
compacted-IsSorted [] s = tt
compacted-IsSorted ((k, c) ∷ l) s =
    add_to-IsSorted (compact_key k) c (compacted l) (compact_key-IsInRange k s.0)
      (compact_key-lt-invalid k (lt-invalid k c l s)) (compacted-IsSorted l s.2)
