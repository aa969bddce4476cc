-- ===== src/Sketch/Key.antt =====
-- src/aggregator/sketch.rs: `SketchHashKey`, its order and its compaction.
pub mod Order
pub mod Compact
pub mod Fixed
use Prim.Native.Nat.{ℕ, ◌^◌, ◌-◌, Ordering}
use mathlib.Core.Path.{◌≡◌}
use mathlib.Core.Logic.{◌↔◌}
use mathlib.Core.Bool.{Bool, true, false, not}
use native.Mathlib.Omega.{arith}
use chalk_metrics.Prelude.{PartialEq, ◌==◌, if◌then◌else◌}
use chalk_metrics.Prelude.Int.{
  ℤ, pos, negsuc, int_beq, int_beq_iff, int_cmp, i64_max, i64_add, quot_two, IsI64, int_eq,
}

pub data SketchHashKey : Type 0 where
  negative : ℤ → SketchHashKey
  zero : SketchHashKey
  positive : ℤ → SketchHashKey
  invalid : SketchHashKey

-- The derived `PartialEq`.
abbrev pub key_beq : SketchHashKey → SketchHashKey → Bool
key_beq (negative a) (negative b) = int_beq a b
key_beq zero zero = true
key_beq (positive a) (positive b) = int_beq a b
key_beq invalid invalid = true
key_beq _ _ = false

pub key_beq_iff : (a b : SketchHashKey) → (key_beq a b ≡ true) ↔ (a ≡ b)
key_beq_iff (negative a) (negative b) = ground (arith, int_beq_iff a b)
key_beq_iff (positive a) (positive b) = ground (arith, int_beq_iff a b)
key_beq_iff zero zero = ground arith
key_beq_iff _ _ = ground arith

instance abbrev pub key_eq : PartialEq SketchHashKey
key_eq = record { eq = key_beq; eq_iff = key_beq_iff }

unfoldable pub is_valid : SketchHashKey → Bool
is_valid k = not (k == invalid)

abbrev is_above_zero : ℤ → Bool
is_above_zero x = elim (int_cmp x (pos 0)) [ Ordering.gt ↦ true | _ ↦ false ]

-- `if x > 0 { x + 1 } else { x } / 2`
unfoldable pub halve : ℤ → ℤ
halve x = quot_two (if is_above_zero x then i64_add x (pos 1) else x)

-- `i64::MAX` stays as it is.
unfoldable pub compact_key : SketchHashKey → SketchHashKey
unfolding halve
compact_key (negative x) = if x == pos i64_max then negative x else negative (halve x)
compact_key (positive x) = if x == pos i64_max then positive x else positive (halve x)
compact_key zero = zero
compact_key invalid = invalid

unfoldable pub reverse_order : Ordering → Ordering
reverse_order Ordering.lt = Ordering.gt
reverse_order Ordering.eq = Ordering.eq
reverse_order Ordering.gt = Ordering.lt

-- `Invalid` is above every other key.
unfoldable pub partial_cmp : SketchHashKey → SketchHashKey → Ordering
unfolding reverse_order
partial_cmp invalid invalid = Ordering.eq
partial_cmp invalid _ = Ordering.gt
partial_cmp _ invalid = Ordering.lt
partial_cmp zero zero = Ordering.eq
partial_cmp (positive a) (positive b) = int_cmp a b
partial_cmp (negative a) (negative b) = reverse_order (int_cmp a b)
partial_cmp _ (positive b) = Ordering.lt
partial_cmp (positive a) _ = Ordering.gt
partial_cmp _ (negative b) = Ordering.gt
partial_cmp (negative a) _ = Ordering.lt

-- `a < b`, as a proposition
abbrev pub Lt : SketchHashKey → SketchHashKey → Type 0
Lt a b = partial_cmp a b ≡ Ordering.lt

-- `a < b`, `a > b`
abbrev pub lt : SketchHashKey → SketchHashKey → Bool
lt a b = elim (partial_cmp a b) [ Ordering.lt ↦ true | _ ↦ false ]

abbrev pub gt : SketchHashKey → SketchHashKey → Bool
gt a b = elim (partial_cmp a b) [ Ordering.gt ↦ true | _ ↦ false ]

-- The number in the key lies in the range of an `i64`.
abbrev pub IsInRange : SketchHashKey → Type 0
IsInRange (negative x) = IsI64 x
IsInRange (positive x) = IsI64 x
IsInRange _ = Unit {0}
