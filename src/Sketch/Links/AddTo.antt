-- ===== src/Sketch/Links/AddTo.antt =====
-- The sorted list of buckets under one more count: its order, length, keys and counts.
use chalk_metrics.Prelude.{
  ℕ, suc, ◌≡◌, refl, sym, ◌||◌, [], ◌∷◌, ◌==◌, if◌then◌else◌, length, Ordering, arith, inl, inr,
  Ordering-cases,
}
use chalk_metrics.Prelude.Int.{u64_add}
use chalk_metrics.Sketch.Key.{
  SketchHashKey, invalid, key_eq, key_beq_iff, partial_cmp, IsInRange, Lt,
}
use chalk_metrics.Sketch.Key.Order.{cmp_eq, cmp_trans}
use chalk_metrics.Sketch.Links.Represents.{
  Buckets, first, IsSorted, has, add_to, gt-lt, lt-gt, has-below, ne_of_lt, ne_of_gt,
}

module _ (k : SketchHashKey) (n : ℕ) where
  pub add_to_lt : (l : Buckets) → Lt k (first l) → add_to k n l ≡ (k, u64_add 0 n) ∷ l
  unfolding add_to
  add_to_lt [] h = refl
  add_to_lt ((j, c) ∷ l) h = rw (h, add_to)

  pub add_to_eq :
      (j : SketchHashKey) (c : ℕ) (l : Buckets)
      → partial_cmp k j ≡ Ordering.eq
      → add_to k n ((j, c) ∷ l) ≡ (j, u64_add c n) ∷ l
  unfolding add_to
  add_to_eq j c l h = rw (h, add_to)

  pub add_to_gt :
      (j : SketchHashKey) (c : ℕ) (l : Buckets)
      → Lt j k
      → add_to k n ((j, c) ∷ l) ≡ (j, c) ∷ add_to k n l
  unfolding add_to
  add_to_gt j c l h = rw (lt-gt j k h, add_to)

  pub first-add_to :
      (j : SketchHashKey) (l : Buckets) → Lt j k → Lt j (first l) → Lt j (first (add_to k n l))
  unfolding add_to
  first-add_to j [] h p = h
  first-add_to j ((i, c) ∷ l) h p = ground arith

  pub add_to-IsSorted :
      (l : Buckets) → IsInRange k → Lt k invalid → IsSorted l → IsSorted (add_to k n l)
  add_to-IsSorted [] r v s = unfold add_to in (r, v, tt)
  add_to-IsSorted ((j, c) ∷ l) r v s = elim (Ordering-cases (partial_cmp k j)) [
    | inl lt ↦ rw (add_to_lt ((j, c) ∷ l) lt) (r, lt, s)
    | inr (inl eq) ↦ rw (add_to_eq j c l eq) s
    | inr (inr gt) ↦
        rw (add_to_gt j c l (gt-lt k j gt))
          (s.0, first-add_to j l (gt-lt k j gt) s.1, add_to-IsSorted l r v s.2)
  ]

  pub has-add_to : (j : SketchHashKey) (l : Buckets) → has j (add_to k n l) ≡ ((k == j) || has j l)
  unfolding has add_to
  has-add_to j [] = refl
  has-add_to j ((i, c) ∷ l) =
      ground (arith, has-add_to j l, cmp_eq k i, key_beq_iff k j, key_beq_iff i j)

  pub length-add_to :
      (l : Buckets)
      → IsSorted l
      → length (add_to k n l) ≡ (if has k l then length l else suc (length l))
  unfolding has
  length-add_to [] s = unfold add_to in refl
  length-add_to ((j, c) ∷ l) s = elim (Ordering-cases (partial_cmp k j)) [
    | inl lt ↦ rw (
      add_to_lt ((j, c) ∷ l) lt,
      ne_of_gt j k lt,
      has-below k l s.2 (cmp_trans k j (first l) lt s.1),
    )
    | inr (inl eq) ↦ rw (add_to_eq j c l eq, (key_beq_iff j k).1 (sym (cmp_eq k j eq)))
    | inr (inr gt) ↦
        rw (add_to_gt j c l (gt-lt k j gt), ne_of_lt j k (gt-lt k j gt))
          (ground (arith, length-add_to l s.2))
  ]
