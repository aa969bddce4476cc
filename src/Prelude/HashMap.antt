-- ===== src/Prelude/HashMap.antt =====
-- What the code uses of `std::collections::HashMap`: an association list with a key at most once
-- visible.
use Prim.Native.Nat.{suc}
use mathlib.Core.Path.{◌≡◌, refl}
use mathlib.Core.Bool.{false}
use mathlib.Core.List.{List, [], ◌∷◌}
use mathlib.Core.Option.{Option, none, some}
use native.Mathlib.Omega.{arith}
use chalk_metrics.Prelude.Tests.{PartialEq, ==_refl, ◌==◌, if◌then◌else◌}
use chalk_metrics.Prelude.Lists.{length}

abbrev pub HashMap {ℓ} : Type ℓ → Type ℓ → Type ℓ
HashMap K V = List (K × V)

module _ {ℓ} {K V : Type ℓ} ⦃e : PartialEq K⦄ where
  -- `get`
  unfoldable pub get : K → HashMap K V → Option V
  get k [] = none
  get k ((j, v) ∷ m) = if j == k then some v else get k m

  -- `insert`, and a write through `get_mut`
  unfoldable pub put : K → V → HashMap K V → HashMap K V
  put k v [] = (k, v) ∷ []
  put k v ((j, w) ∷ m) = if j == k then (k, v) ∷ m else (j, w) ∷ put k v m

  pub get-put :
      (k j : K) (v : V) (m : HashMap K V) → get j (put k v m) ≡ (if k == j then some v else get j m)
  unfolding get put
  get-put k j v [] = refl
  get-put k j v ((i, w) ∷ m) =
      ground (arith, e.eq_iff k j, e.eq_iff i k, e.eq_iff i j, get-put k j v m)

  pub get-put_self : (k : K) (v : V) (m : HashMap K V) → get k (put k v m) ≡ some v
  get-put_self k v m = rw (get-put k k v m, ==_refl k)

  pub get-put_ne :
      (k j : K) (v : V) (m : HashMap K V) → (k == j) ≡ false → get j (put k v m) ≡ get j m
  get-put_ne k j v m h = rw (get-put k j v m, h)

  pub length-put_absent :
      (k : K) (v : V) (m : HashMap K V) → get k m ≡ none → length (put k v m) ≡ suc (length m)
  unfolding get put
  length-put_absent k v [] h = refl
  length-put_absent k v ((i, w) ∷ m) h = ground (arith, length-put_absent k v m)

  pub length-put_present :
      (k : K) (v w : V) (m : HashMap K V) → get k m ≡ some w → length (put k v m) ≡ length m
  unfolding get put
  length-put_present k v w [] h = cc
  length-put_present k v w ((i, u) ∷ m) h = ground (arith, length-put_present k v w m)
