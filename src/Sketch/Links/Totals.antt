-- ===== src/Sketch/Links/Totals.antt =====
-- The sum of the counts, modulo 2 ^ 64, and the count under one key.
use chalk_metrics.Prelude.{
  ℕ, suc, ◌≡◌, refl, ap, ◌∙◌, [], ◌∷◌, arith, inl, inr, Ordering-cases, ◌≤◌, length, ◌+◌, ◌%◌,
}
use chalk_metrics.Prelude.Int.{u64_add, u64_add_assoc, u64_add-left_zero, u64_mod}
use chalk_metrics.Sketch.Key.{SketchHashKey, key_eq, partial_cmp, compact_key}
use chalk_metrics.Sketch.Links.Represents.{Buckets, add_to, compacted}

abbrev pub total : Buckets → ℕ
total [] = 0
total ((k, c) ∷ l) = u64_add c (total l)

-- The plain sum.
abbrev pub sum : Buckets → ℕ
sum [] = 0
sum ((k, c) ∷ l) = c + sum l

pub total-sum : (l : Buckets) → total l ≡ sum l % u64_mod
unfolding u64_add
total-sum [] = refl
total-sum ((k, c) ∷ l) = omega (arith, total-sum l)

swap_counts : (a b c : ℕ) → u64_add a (u64_add b c) ≡ u64_add b (u64_add a c)
unfolding u64_add
swap_counts a b c = omega arith

pub total-add_to :
    (k : SketchHashKey) (n : ℕ) (l : Buckets) → total (add_to k n l) ≡ u64_add n (total l)
unfolding add_to
total-add_to k n [] = u64_add-left_zero n 0
total-add_to k n ((j, c) ∷ l) = elim (Ordering-cases (partial_cmp k j)) [
  | inl lt ↦ rw (lt, add_to) (u64_add-left_zero n _)
  | inr (inl eq) ↦ rw (eq, add_to) (u64_add_assoc c n (total l) ∙ swap_counts c n (total l))
  | inr (inr gt) ↦ rw (gt, add_to) (ap (u64_add c) (total-add_to k n l) ∙ swap_counts c n (total l))
]

pub total-compacted : (l : Buckets) → total (compacted l) ≡ total l
unfolding compacted
total-compacted [] = refl
total-compacted ((k, c) ∷ l) =
    total-add_to (compact_key k) c (compacted l) ∙ ap (u64_add c) (total-compacted l)

pub length-add_to-le :
    (k : SketchHashKey) (n : ℕ) (l : Buckets) → length (add_to k n l) ≤ suc (length l)
unfolding add_to
length-add_to-le k n [] = omega arith
length-add_to-le k n ((j, c) ∷ l) = ground (arith, length-add_to-le k n l)
