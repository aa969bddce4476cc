-- ===== src/Macros/Tags.antt =====
-- chalk-metrics-macros/src/lib.rs: the tag types that `expand_tags` makes.
use Prim.Native.Nat.{zero}
use chalk_metrics.Prelude.{ℕ, suc, List, [], ◌∷◌, Option, none, some}
use chalk_metrics.Prelude.Text.{Str}

-- A tag whose values are listed becomes an `enum`, any other one a wrapper of a `String`.
pub record TagDef (V : Type 0) : Type 0 where
  pub vis : V
  pub ident : Str
  pub export_name : Str
  pub values : Option (List (Str × Str))

-- A value of the type: a variant by its place in the list, or any text.
pub data TagValue : Type 0 where
  variant : ℕ → TagValue
  free : Str → TagValue

-- The arm of the match for a variant.
unfoldable pub match_arm : ℕ → List (Str × Str) → Option Str
match_arm n [] = none
match_arm zero ((name, value) ∷ l) = some value
match_arm (suc n) ((name, value) ∷ l) = match_arm n l

-- `as_str` of a tag without a list of values.
unfoldable pub string_as_str : Str → Str
string_as_str s = s

-- `as_str`, which `export_value` returns. There is no value of the other kind: `none`.
unfoldable pub as_str : {V : Type 0} → TagDef V → TagValue → Option Str
unfolding string_as_str
as_str t (variant n) = elim t.values [ none ↦ none | some values ↦ match_arm n values ]
as_str t (free s) = elim t.values [ none ↦ some (string_as_str s) | some values ↦ none ]
