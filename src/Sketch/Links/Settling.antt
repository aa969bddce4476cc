-- ===== src/Sketch/Links/Settling.antt =====
-- The sorted list of buckets under many compactions, on which the loop of compactions in
-- src/aggregator/sketch.rs rests.
use Prim.Native.Nat.{zero}
use native.Mathlib.Nat.{pow-suc}
use chalk_metrics.Prelude.{
  ℕ, suc, ◌+◌, ◌*◌, ◌^◌, ◌≤◌, ◌≡◌, [], ◌∷◌, length, arith, inl, inr, Ordering-cases,
}
use chalk_metrics.Sketch.Key.{SketchHashKey, partial_cmp, compact_key}
use chalk_metrics.Sketch.Key.Fixed.{
  IsSmall, IsInRange-IsSmall, compact_key-IsSmall, place, place_mono, place-lt-seven,
}
use chalk_metrics.Sketch.Links.AddTo.{add_to_lt, add_to_eq, add_to_gt}
use chalk_metrics.Sketch.Links.Compacted.{compacted-IsSorted}
use chalk_metrics.Sketch.Links.Represents.{Buckets, first, IsSorted, add_to, compacted, gt-lt}
use chalk_metrics.Sketch.Links.Totals.{length-add_to-le}

abbrev pub compacted_times : ℕ → Buckets → Buckets
compacted_times zero l = l
compacted_times (suc n) l = compacted_times n (compacted l)

abbrev AreSmall : ℕ → ℕ → Buckets → Type 0
AreSmall a b [] = Unit {0}
AreSmall a b ((k, c) ∷ l) = IsSmall a b k × AreSmall a b l

add_to-AreSmall :
    (a b : ℕ) (k : SketchHashKey) (n : ℕ) (l : Buckets)
    → IsSmall a b k
    → AreSmall a b l
    → AreSmall a b (add_to k n l)
add_to-AreSmall a b k n [] h hl = unfold add_to in (h, tt)
add_to-AreSmall a b k n ((j, c) ∷ l) h hl = elim (Ordering-cases (partial_cmp k j)) [
  | inl lt ↦ rw (add_to_lt k n ((j, c) ∷ l) lt) (h, hl)
  | inr (inl eq) ↦ rw (add_to_eq k n j c l eq) hl
  | inr (inr gt) ↦ rw (add_to_gt k n j c l (gt-lt k j gt)) (hl.0, add_to-AreSmall a b k n l h hl.1)
]

compacted-AreSmall :
    (a b a' b' : ℕ) (l : Buckets)
    → a ≤ 2 * a' + 1
    → b ≤ 2 * b'
    → b ≤ 2 ^ 63
    → IsSorted l
    → AreSmall a b l
    → AreSmall a' b' (compacted l)
unfolding compacted
compacted-AreSmall a b a' b' [] ha hb hm s h = tt
compacted-AreSmall a b a' b' ((k, c) ∷ l) ha hb hm s h =
    add_to-AreSmall a' b' (compact_key k) c (compacted l)
      (compact_key-IsSmall a b a' b' k ha hb hm s.0 h.0)
      (compacted-AreSmall a b a' b' l ha hb hm s.2 h.1)

sorted-AreSmall : (l : Buckets) → IsSorted l → AreSmall (2 ^ 63) (2 ^ 63) l
sorted-AreSmall [] s = tt
sorted-AreSmall ((k, c) ∷ l) s = (IsInRange-IsSmall k s.0, sorted-AreSmall l s.2)

pub length-compacted-le : (l : Buckets) → length (compacted l) ≤ length l
unfolding compacted
length-compacted-le [] = omega arith
length-compacted-le ((k, c) ∷ l) =
    omega (arith, length-compacted-le l, length-add_to-le (compact_key k) c (compacted l))

pub compacted_times-IsSorted : (n : ℕ) (l : Buckets) → IsSorted l → IsSorted (compacted_times n l)
compacted_times-IsSorted zero l s = s
compacted_times-IsSorted (suc n) l s =
    compacted_times-IsSorted n (compacted l) (compacted-IsSorted l s)

halving :
    (n : ℕ) (l : Buckets)
    → 2 ^ n ≤ 2 ^ 63
    → IsSorted l
    → AreSmall (2 ^ n) (2 ^ n) l
    → AreSmall 0 1 (compacted_times (suc n) l)
halving zero l m s h = compacted-AreSmall 1 1 0 1 l (omega arith) (omega arith) (omega arith) s h
halving (suc n) l m s h =
    let e : 2 ^ suc n ≡ 2 ^ n * 2 = pow-suc 2 n in
    halving n (compacted l) (omega (arith, e, m)) (compacted-IsSorted l s) (
      compacted-AreSmall (2 ^ suc n) (2 ^ suc n) (2 ^ n) (2 ^ n) l (omega (arith, e))
        (omega (arith, e)) m s h)

place_bound : (l : Buckets) → IsSorted l → AreSmall 0 1 l → length l + place (first l) ≤ 7
place_bound [] s h = unfold place in omega arith
place_bound ((k, c) ∷ []) s h = omega (arith, place-lt-seven k h.0 s.1)
place_bound ((k, c) ∷ (j, d) ∷ l) s h =
    omega (arith, place_bound ((j, d) ∷ l) s.2 h.1, place_mono k j h.0 h.1.0 s.1)

-- A sorted list of buckets that is compacted 64 times over holds at most seven buckets.
pub length-settled-le : (l : Buckets) → IsSorted l → length (compacted_times 64 l) ≤ 7
length-settled-le l s =
    let h = halving 63 l (omega arith) s (sorted-AreSmall l s) in
    omega (arith, place_bound (compacted_times 64 l) (compacted_times-IsSorted 64 l s) h)
