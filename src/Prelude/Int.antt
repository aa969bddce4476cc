-- ===== src/Prelude/Int.antt =====
-- Signed integers over the native numbers, and the wrap-around arithmetic of `i64` and `u64`.
pub mod Residues
use Prim.Native.Nat.{ℕ, suc, ◌+◌, ◌-◌, ◌*◌, ◌/◌, ◌%◌, ◌^◌, ◌≤◌, ◌<◌, Ordering, compare}
use mathlib.Core.Path.{◌≡◌, refl}
use mathlib.Core.Logic.{◌↔◌}
use mathlib.Core.Bool.{Bool, true, false}
use native.Mathlib.Omega.{arith}
use chalk_metrics.Prelude.Tests.{ltb, leb, nat_beq, if◌then◌else◌, PartialEq, ◌==◌}

-- `negsuc n` is -(n + 1).
pub data ℤ : Type 0 where
  pos : ℕ → ℤ
  negsuc : ℕ → ℤ

abbrev pub pos_part : ℤ → ℕ
pos_part (pos n) = n
pos_part (negsuc n) = 0

abbrev pub neg_part : ℤ → ℕ
neg_part (pos n) = 0
neg_part (negsuc n) = suc n

-- a - b, as an integer.
abbrev pub sub_ℕ : ℕ → ℕ → ℤ
sub_ℕ a b = if leb b a then pos (a - b) else negsuc (b - a - 1)

infixl 65 ◌+ℤ◌
unfoldable pub ◌+ℤ◌ : ℤ → ℤ → ℤ
a +ℤ b = sub_ℕ (pos_part a + pos_part b) (neg_part a + neg_part b)

abbrev pub int_beq : ℤ → ℤ → Bool
int_beq (pos a) (pos b) = nat_beq a b
int_beq (negsuc a) (negsuc b) = nat_beq a b
int_beq (pos a) (negsuc b) = false
int_beq (negsuc a) (pos b) = false

pub int_beq_iff : (a b : ℤ) → (int_beq a b ≡ true) ↔ (a ≡ b)
int_beq_iff (pos a) (pos b) = ground arith
int_beq_iff (pos a) (negsuc b) = ground arith
int_beq_iff (negsuc a) (pos b) = ground arith
int_beq_iff (negsuc a) (negsuc b) = ground arith

instance abbrev pub int_eq : PartialEq ℤ
int_eq = record { eq = int_beq; eq_iff = int_beq_iff }

-- `i64::cmp`
abbrev pub int_cmp : ℤ → ℤ → Ordering
int_cmp (pos a) (pos b) = compare a b
int_cmp (pos a) (negsuc b) = Ordering.gt
int_cmp (negsuc a) (pos b) = Ordering.lt
int_cmp (negsuc a) (negsuc b) = compare b a

abbrev pub i64_max : ℕ
i64_max = 2 ^ 63 - 1

abbrev pub u64_mod : ℕ
u64_mod = 2 ^ 64

-- The value lies in the range of an `i64`.
abbrev pub IsI64 : ℤ → Type 0
IsI64 x = (pos_part x ≤ i64_max) × (neg_part x ≤ 2 ^ 63)

-- The 64 low bits of a number, read as a signed number.
unfoldable pub wrap_i64 : ℤ → ℤ
wrap_i64 (pos n) =
    if ltb (n % u64_mod) (2 ^ 63) then pos (n % u64_mod) else negsuc (u64_mod - 1 - n % u64_mod)
wrap_i64 (negsuc n) =
    if ltb (n % u64_mod) (2 ^ 63) then negsuc (n % u64_mod) else pos (u64_mod - 1 - n % u64_mod)

unfoldable pub i64_add : ℤ → ℤ → ℤ
unfolding wrap_i64 ◌+ℤ◌
i64_add a b = wrap_i64 (a +ℤ b)

-- `x / 2`, which drops the fraction towards zero.
abbrev pub quot_two : ℤ → ℤ
quot_two (pos n) = pos (n / 2)
quot_two (negsuc n) = sub_ℕ 0 (suc n / 2)

unfoldable pub u64_add : ℕ → ℕ → ℕ
u64_add a b = (a + b) % u64_mod

pub u64_add_comm : (a b : ℕ) → u64_add a b ≡ u64_add b a
unfolding u64_add
u64_add_comm a b = omega arith

pub u64_add_assoc : (a b c : ℕ) → u64_add (u64_add a b) c ≡ u64_add a (u64_add b c)
unfolding u64_add
u64_add_assoc a b c = omega arith

pub u64_add-left_zero : (a b : ℕ) → u64_add (u64_add 0 a) b ≡ u64_add a b
unfolding u64_add
u64_add-left_zero a b = omega arith

pub i64_add-IsI64 : (a b : ℤ) → IsI64 (i64_add a b)
unfolding i64_add
i64_add-IsI64 a b = ground arith
