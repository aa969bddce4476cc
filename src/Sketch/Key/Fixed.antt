-- ===== src/Sketch/Key/Fixed.antt =====
-- src/aggregator/sketch.rs: `SketchHashKey::compact_key`, applied again and again.
use chalk_metrics.Prelude.{
  ℕ, ◌+◌, ◌*◌, ◌^◌, ◌-◌, ◌≤◌, ◌<◌, ◌≡◌, ◌⊎◌, inr, arith, if◌then◌else◌, ltb,
}
use chalk_metrics.Prelude.Int.{ℤ, pos, negsuc, i64_max, IsI64, pos_part, neg_part}
use chalk_metrics.Sketch.Key.{
  SketchHashKey, negative, zero, positive, invalid, partial_cmp, compact_key, IsInRange, Lt,
}
use chalk_metrics.Sketch.Key.Compact.{
  step, halve-pos, halve-negsuc, compact_key-positive, compact_key-negative,
}

-- The number is `i64::MAX`, or lies within `a` below and `b` above zero.
abbrev pub IsWithin : ℕ → ℕ → ℤ → Type 0
IsWithin a b x = (x ≡ pos i64_max) ⊎ ((neg_part x ≤ a) × (pos_part x ≤ b))

abbrev pub IsSmall : ℕ → ℕ → SketchHashKey → Type 0
IsSmall a b (positive x) = IsWithin a b x
IsSmall a b (negative x) = IsWithin a b x
IsSmall a b _ = Unit {0}

pub IsInRange-IsSmall : (k : SketchHashKey) → IsInRange k → IsSmall (2 ^ 63) (2 ^ 63) k
IsInRange-IsSmall (positive x) r = inr (r.1, omega arith)
IsInRange-IsSmall (negative x) r = inr (r.1, omega arith)
IsInRange-IsSmall zero r = tt
IsInRange-IsSmall invalid r = tt

step-IsWithin :
    (a b a' b' : ℕ) (x : ℤ)
    → a ≤ 2 * a' + 1
    → b ≤ 2 * b'
    → b ≤ 2 ^ 63
    → IsI64 x
    → IsWithin a b x
    → IsWithin a' b' (step x)
unfolding step
step-IsWithin a b a' b' (pos n) ha hb hm r h = ground (arith, halve-pos n)
step-IsWithin a b a' b' (negsuc n) ha hb hm r h = ground (arith, halve-negsuc n)

-- One round halves the bounds.
pub compact_key-IsSmall :
    (a b a' b' : ℕ) (k : SketchHashKey)
    → a ≤ 2 * a' + 1
    → b ≤ 2 * b'
    → b ≤ 2 ^ 63
    → IsInRange k
    → IsSmall a b k
    → IsSmall a' b' (compact_key k)
compact_key-IsSmall a b a' b' (positive x) ha hb hm r h =
    rw (compact_key-positive x) (step-IsWithin a b a' b' x ha hb hm r h)
compact_key-IsSmall a b a' b' (negative x) ha hb hm r h =
    rw (compact_key-negative x) (step-IsWithin a b a' b' x ha hb hm r h)
compact_key-IsSmall a b a' b' zero ha hb hm r h = unfold compact_key in tt
compact_key-IsSmall a b a' b' invalid ha hb hm r h = unfold compact_key in tt

-- The place of a fixed point in the order: Negative MAX, 1, 0, Zero, Positive 0, 1, MAX.
unfoldable pub place : SketchHashKey → ℕ
place (negative x) = if ltb 1 (pos_part x) then 0 else 2 - pos_part x
place zero = 3
place (positive x) = if ltb 1 (pos_part x) then 6 else 4 + pos_part x
place invalid = 7

-- Fixed points in order stand at places in order.
pub place_mono : (a b : SketchHashKey) → IsSmall 0 1 a → IsSmall 0 1 b → Lt a b → place a < place b
unfolding place partial_cmp
place_mono (positive (pos x)) (positive (pos y)) ha hb h = ground arith
place_mono (negative (pos x)) (negative (pos y)) ha hb h = ground arith
place_mono zero zero ha hb h = ground arith
place_mono _ _ ha hb h = ground arith

pub place-lt-seven : (k : SketchHashKey) → IsSmall 0 1 k → Lt k invalid → place k < 7
unfolding place partial_cmp
place-lt-seven (positive (pos x)) ha h = ground arith
place-lt-seven (negative (pos x)) ha h = ground arith
place-lt-seven _ ha h = ground arith
