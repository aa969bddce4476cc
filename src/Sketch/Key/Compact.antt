-- ===== src/Sketch/Key/Compact.antt =====
-- src/aggregator/sketch.rs: `SketchHashKey::compact_key` and the order of the keys.
use chalk_metrics.Prelude.{
  ℕ, ◌+◌, ◌/◌, ◌≤◌, ◌<◌, ◌≡◌, refl, ◌⊎◌, arith, Ordering, if◌then◌else◌, ◌==◌,
}
use chalk_metrics.Prelude.Int.{
  ℤ, pos, negsuc, int_cmp, int_eq, i64_max, IsI64, i64_add, sub_ℕ, pos_part, neg_part,
}
use chalk_metrics.Sketch.Key.Order.{int_cmp_flip}
use chalk_metrics.Sketch.Key.{
  SketchHashKey, negative, zero, positive, invalid, partial_cmp, halve, compact_key, IsInRange, Lt,
}

unfoldable pub step : ℤ → ℤ
step x = if x == pos i64_max then x else halve x

pub halve-pos : (n : ℕ) → n < i64_max → halve (pos n) ≡ pos ((n + 1) / 2)
unfolding halve i64_add
halve-pos n h = ground arith

pub halve-negsuc : (n : ℕ) → halve (negsuc n) ≡ sub_ℕ 0 ((n + 1) / 2)
unfolding halve
halve-negsuc n = ground arith

step_between :
    (a b : ℤ)
    → IsI64 a
    → IsI64 b
    → int_cmp a b ≡ Ordering.lt
    → pos_part (step a) + neg_part (step b) ≤ pos_part (step b) + neg_part (step a)
unfolding step
step_between (pos a) (pos b) ra rb h = ground (arith, halve-pos a, halve-pos b)
step_between (pos a) (negsuc b) ra rb h = ground arith
step_between (negsuc a) (pos b) ra rb h = ground (arith, halve-negsuc a, halve-pos b)
step_between (negsuc a) (negsuc b) ra rb h = ground (arith, halve-negsuc a, halve-negsuc b)

step_apart :
    (a b c : ℤ)
    → IsI64 a
    → IsI64 b
    → IsI64 c
    → int_cmp a b ≡ Ordering.lt
    → int_cmp b c ≡ Ordering.lt
    → pos_part (step a) + neg_part (step c) < pos_part (step c) + neg_part (step a)
unfolding step
step_apart (pos a) (pos b) (pos c) ra rb rc h k =
    ground (arith, halve-pos a, halve-pos b, halve-pos c)
step_apart (negsuc a) (pos b) (pos c) ra rb rc h k =
    ground (arith, halve-negsuc a, halve-pos b, halve-pos c)
step_apart (negsuc a) (negsuc b) (pos c) ra rb rc h k =
    ground (arith, halve-negsuc a, halve-negsuc b, halve-pos c)
step_apart (negsuc a) (negsuc b) (negsuc c) ra rb rc h k =
    ground (arith, halve-negsuc a, halve-negsuc b, halve-negsuc c)
step_apart _ _ _ ra rb rc h k = ground arith

int_cmp_lt :
    (a b : ℤ) → pos_part a + neg_part b < pos_part b + neg_part a → int_cmp a b ≡ Ordering.lt
int_cmp_lt (pos a) (pos b) h = ground arith
int_cmp_lt (pos a) (negsuc b) h = ground arith
int_cmp_lt (negsuc a) (pos b) h = ground arith
int_cmp_lt (negsuc a) (negsuc b) h = ground arith

int_cmp_le :
    (a b : ℤ)
    → pos_part a + neg_part b ≤ pos_part b + neg_part a
    → (int_cmp a b ≡ Ordering.lt) ⊎ (a ≡ b)
int_cmp_le (pos a) (pos b) h = ground arith
int_cmp_le (pos a) (negsuc b) h = ground arith
int_cmp_le (negsuc a) (pos b) h = ground arith
int_cmp_le (negsuc a) (negsuc b) h = ground arith

step-IsI64 : (a : ℤ) → IsI64 a → IsI64 (step a)
unfolding step
step-IsI64 (pos a) r = ground (arith, halve-pos a)
step-IsI64 (negsuc a) r = ground (arith, halve-negsuc a)

pub compact_key-positive : (x : ℤ) → compact_key (positive x) ≡ positive (step x)
unfolding compact_key step
compact_key-positive x = ground arith

pub compact_key-negative : (x : ℤ) → compact_key (negative x) ≡ negative (step x)
unfolding compact_key step
compact_key-negative x = ground arith

pub compact_key-IsInRange : (k : SketchHashKey) → IsInRange k → IsInRange (compact_key k)
compact_key-IsInRange (positive x) r = rw (compact_key-positive x) (step-IsI64 x r)
compact_key-IsInRange (negative x) r = rw (compact_key-negative x) (step-IsI64 x r)
compact_key-IsInRange zero r = unfold compact_key in tt
compact_key-IsInRange invalid r = unfold compact_key in tt

-- Of two keys whose numbers are `i64`s, one below the other, the first stays below the second when
-- both are compacted, or they become the same key.
pub compact_key_mono :
    (a b : SketchHashKey)
    → IsInRange a
    → IsInRange b
    → Lt a b
    → Lt (compact_key a) (compact_key b) ⊎ (compact_key a ≡ compact_key b)
unfolding partial_cmp
compact_key_mono (positive x) (positive y) ra rb h =
    rw (compact_key-positive x, compact_key-positive y)
      (ground (arith, int_cmp_le (step x) (step y), step_between x y))
compact_key_mono (negative x) (negative y) ra rb h =
    rw (compact_key-negative x, compact_key-negative y)
      (ground (
        arith,
        int_cmp_le (step y) (step x),
        step_between y x,
        int_cmp_flip x y,
        int_cmp_flip (step x) (step y),
      ))
compact_key_mono zero zero ra rb h = ground arith
compact_key_mono _ _ ra rb h = unfold compact_key in ground arith

-- Of three rising keys whose numbers are `i64`s, the first stays strictly below the third when
-- both are compacted: at most two neighbours are merged.
pub compact_key_apart :
    (a b c : SketchHashKey)
    → IsInRange a
    → IsInRange b
    → IsInRange c
    → Lt a b
    → Lt b c
    → Lt (compact_key a) (compact_key c)
unfolding partial_cmp
compact_key_apart (positive x) (positive y) (positive z) ra rb rc h k =
    rw (compact_key-positive x, compact_key-positive z)
      (int_cmp_lt _ _ (step_apart x y z ra rb rc h k))
compact_key_apart (negative x) (negative y) (negative z) ra rb rc h k =
    rw (compact_key-negative x, compact_key-negative z)
      (ground (
        arith,
        int_cmp_lt (step z) (step x),
        step_apart z y x,
        int_cmp_flip x y,
        int_cmp_flip y z,
        int_cmp_flip (step z) (step x),
      ))
compact_key_apart zero zero zero ra rb rc h k = ground arith
compact_key_apart _ _ _ ra rb rc h k = unfold compact_key in ground arith

pub compact_key-lt-invalid : (k : SketchHashKey) → Lt k invalid → Lt (compact_key k) invalid
unfolding partial_cmp
compact_key-lt-invalid (positive x) h = rw (compact_key-positive x)
compact_key-lt-invalid (negative x) h = rw (compact_key-negative x)
compact_key-lt-invalid zero h = unfold compact_key in refl
compact_key-lt-invalid invalid h = cc
