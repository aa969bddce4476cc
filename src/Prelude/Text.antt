-- ===== src/Prelude/Text.antt =====
-- Text as the list of its bytes, and the decimal numbers of `format!`.
use Prim.Native.Nat.{ℕ, zero, suc, ◌+◌, ◌/◌, ◌%◌}
use Prim.Native.Char.{code}
use Prim.Native.String.{String}
use mathlib.Core.List.{List, [], ◌∷◌, ◌++◌, append_assoc}
use mathlib.Core.Path.{◌≡◌, refl, ap, ◌∙◌}
use chalk_metrics.Prelude.Tests.{ltb, if◌then◌else◌}
use chalk_metrics.Prelude.Int.{ℤ, pos, negsuc}

abbrev pub Str : Type 0
Str = List ℕ

-- The code points of a text: its bytes, if it is ASCII.
abbrev pub codes : String → Str
codes String.[] = []
codes (String.◌∷◌ c s) = code c ∷ codes s

-- `[..].join(separator)`
unfoldable pub join : Str → List Str → Str
join separator [] = []
join separator (s ∷ []) = s
join separator (s ∷ t ∷ l) = s ++ separator ++ join separator (t ∷ l)

pub join-snoc :
    (sep l : Str) (ls : List Str) (line : Str)
    → join sep (l ∷ ls ++ line ∷ []) ≡ join sep (l ∷ ls) ++ sep ++ line
unfolding join
join-snoc sep l [] line = refl
join-snoc sep l (m ∷ ls) line =
    ap (λ x. l ++ sep ++ x) (join-snoc sep m ls line) ∙ simp append_assoc

-- At most `fuel` decimal digits.
unfoldable pub show_digits : ℕ → ℕ → Str
show_digits zero n = []
show_digits (suc fuel) n =
    let rest = show_digits fuel (n / 10) in
    if ltb n 10 then (b'0' + n) ∷ [] else rest ++ (b'0' + n % 10) ∷ []

-- A `u64` has 20 digits at most.
unfoldable pub show_u64 : ℕ → Str
unfolding show_digits
show_u64 n = show_digits 20 n

unfoldable pub show_i64 : ℤ → Str
unfolding show_u64
show_i64 (pos n) = show_u64 n
show_i64 (negsuc n) = b'-' ∷ show_u64 (suc n)
