-- ===== src/Export/Statsd/Numbers.antt =====
-- src/export/statsd.rs: the decimal numbers that a receiver reads in the values of the lines.
use Prim.Native.Nat.{zero}
use chalk_metrics.Prelude.{
  ℕ, suc, ◌+◌, ◌-◌, ◌*◌, ◌%◌, ◌/◌, ◌<◌, ◌≡◌, refl, sym, ap, ◌∙◌, Bool, true, false, ◌&&◌, [], ◌∷◌,
  ◌++◌, Option, none, some, inl, inr, Bool-cases, ltb, leb, ltb→lt, ◌==◌, nat_eq, nat_beq_iff,
  if◌then◌else◌, arith,
}
use chalk_metrics.Prelude.Int.{ℤ, pos, negsuc, IsI64}
use chalk_metrics.Prelude.Text.{Str, show_digits, show_u64, show_i64}

abbrev is_digit : ℕ → Bool
is_digit x = leb 48 x && leb x 57

-- The number of the digits, behind those that have been read.
abbrev read_digits : ℕ → Str → Option ℕ
read_digits n [] = some n
read_digits n (x ∷ s) =
    let rest = read_digits (10 * n + (x - 48)) s in if is_digit x then rest else none

-- One digit at least.
abbrev read_nat : Str → Option ℕ
read_nat [] = none
read_nat (x ∷ s) = read_digits 0 (x ∷ s)

abbrev non_negative : Option ℕ → Option ℤ
non_negative none = none
non_negative (some n) = some (pos n)

abbrev negative : Option ℕ → Option ℤ
negative none = none
negative (some zero) = some (pos 0)
negative (some (suc n)) = some (negsuc n)

-- A number with or without a minus sign.
abbrev pub read_i64 : Str → Option ℤ
read_i64 [] = none
read_i64 (x ∷ s) = if x == b'-' then negative (read_nat s) else non_negative (read_nat (x ∷ s))

abbrev power_of_ten : ℕ → ℕ
power_of_ten zero = 1
power_of_ten (suc k) = 10 * power_of_ten k

is_digit-add : (d : ℕ) → d < 10 → is_digit (48 + d) ≡ true
is_digit-add d h = ground arith

read_digits-snoc :
    (n m d : ℕ) (s : Str)
    → d < 10
    → read_digits n s ≡ some m
    → read_digits n (s ++ (48 + d) ∷ []) ≡ some (10 * m + d)
read_digits-snoc n m d [] h e =
    let same : n ≡ m = cc in rw (is_digit-add d h) (ap some (omega (arith, same)))
read_digits-snoc n m d (x ∷ s) h e = elim (Bool-cases (is_digit x)) [
  | inl y ↦ rw y (read_digits-snoc (10 * n + (x - 48)) m d s h ((rw y at e)))
  | inr y ↦ let no : none ≡ some m = (rw y at e) in cc
]

-- The digits of a number are read as the number.
read_digits-show_digits :
    (fuel n : ℕ) → n < power_of_ten fuel → read_digits 0 (show_digits fuel n) ≡ some n
unfolding show_digits
read_digits-show_digits zero n h = ap some (omega (arith, h))
read_digits-show_digits (suc fuel) n h = elim (Bool-cases (ltb n 10)) [
  | inl one ↦ rw one (read_digits-snoc 0 0 n [] (ltb→lt n 10 one) refl ∙ ap some (omega arith))
  | inr more ↦ rw more (
      read_digits-snoc 0 (n / 10) (n % 10) (show_digits fuel (n / 10)) (omega arith)
        (read_digits-show_digits fuel (n / 10) (omega (arith, h)))
      ∙ ap some (omega arith))
]

show_digits_filled : (fuel n : ℕ) → (x : ℕ) × (s : Str) × (show_digits (suc fuel) n ≡ x ∷ s)
unfolding show_digits
show_digits_filled fuel n = elim (Bool-cases (ltb n 10)) [
  | inl one ↦ rw one (48 + n, [], refl)
  | inr more ↦ rw more (filled (show_digits fuel (n / 10)) (48 + n % 10))
]
  where
    filled : (s : Str) (x : ℕ) → (y : ℕ) × (t : Str) × (s ++ x ∷ [] ≡ y ∷ t)
    filled [] x = (x, [], refl)
    filled (y ∷ s) x = (y, s ++ x ∷ [], refl)

read_nat-show_u64 : (n : ℕ) → n < power_of_ten 20 → read_nat (show_u64 n) ≡ some n
unfolding show_u64
read_nat-show_u64 n h =
    let (x, s, e) = show_digits_filled 19 n in
    ap read_nat e ∙ ap (read_digits 0) (sym e) ∙ read_digits-show_digits 20 n h

-- A number has no sign in front.
read_i64_unsigned : (s : Str) (n : ℕ) → read_nat s ≡ some n → read_i64 s ≡ some (pos n)
read_i64_unsigned [] n e = cc
read_i64_unsigned (x ∷ s) n e = elim (Bool-cases (x == b'-')) [
  | inl y ↦
      let sign : is_digit x ≡ false = ap is_digit ((nat_beq_iff x b'-').0 y) in
      let no : none ≡ some n = (rw sign at e) in cc
  | inr y ↦ rw y (ap non_negative e)
]

-- An `i64` that is displayed is read back.
pub read_i64-show_i64 : (a : ℤ) → IsI64 a → read_i64 (show_i64 a) ≡ some a
unfolding show_i64
read_i64-show_i64 (pos n) h =
    read_i64_unsigned (show_u64 n) n (read_nat-show_u64 n (omega (arith, h)))
read_i64-show_i64 (negsuc n) h = ap negative (read_nat-show_u64 (suc n) (omega (arith, h)))
