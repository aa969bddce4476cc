-- ===== src/Aggregator/Tables.antt =====
-- src/aggregator/striped_map.rs: the stripes as a list, and one hash table under a change.
use Prim.Native.Nat.{zero}
use chalk_metrics.Aggregator.{at, set_at}
use chalk_metrics.Deps.{HashTable, IsHashTable, IsConsistent, change}
use chalk_metrics.Prelude.{
  ℕ, suc, ◌<◌, ◌≡◌, refl, sym, ap, ◌∙◌, List, [], ◌∷◌, length, some, inl, inr, Bool-cases, false,
  All, subst, if◌then◌else◌, ◌==◌, nat_eq, nat_beq_iff, arith,
}
use chalk_metrics.Prelude.HashMap.{get}

pub length-set_at {ℓ} : {A : Type ℓ} (l : List A) (i : ℕ) (v : A) → length (set_at l i v) ≡ length l
length-set_at [] i v = refl
length-set_at (x ∷ l) zero v = refl
length-set_at (x ∷ l) (suc i) v = ap suc (length-set_at l i v)

pub at-set_at_self {ℓ} :
    {A : Type ℓ} (l : List A) (i : ℕ) (v : A) → i < length l → at (set_at l i v) i ≡ some v
at-set_at_self [] i v h = absurd (omega arith)
at-set_at_self (x ∷ l) zero v h = refl
at-set_at_self (x ∷ l) (suc i) v h = at-set_at_self l i v (omega arith)

pub at-set_at_ne {ℓ} :
    {A : Type ℓ} (l : List A) (i j : ℕ) (v : A) → (i == j) ≡ false → at (set_at l i v) j ≡ at l j
at-set_at_ne [] i j v h = refl
at-set_at_ne (x ∷ l) zero zero v h = cc
at-set_at_ne (x ∷ l) zero (suc j) v h = refl
at-set_at_ne (x ∷ l) (suc i) zero v h = refl
at-set_at_ne (x ∷ l) (suc i) (suc j) v h = at-set_at_ne l i j v (ground arith)

pub All-at {ℓ κ} :
    {A : Type ℓ} (P : A → Type κ) (l : List A) (i : ℕ) (x : A) → All P l → at l i ≡ some x → P x
All-at P [] i x h e = cc
All-at P (y ∷ l) zero x h e = let same : y ≡ x = cc in subst P same h.0
All-at P (y ∷ l) (suc i) x h e = All-at P l i x h.1 e

pub All-set_at {ℓ κ} :
    {A : Type ℓ} (P : A → Type κ) (l : List A) (i : ℕ) (x : A)
    → All P l
    → P x
    → All P (set_at l i x)
All-set_at P [] i x h p = h
All-set_at P (y ∷ l) zero x h p = (p, h.1)
All-set_at P (y ∷ l) (suc i) x h p = (h.0, All-set_at P l i x h.1 p)

pub at-some {ℓ} : {A : Type ℓ} (l : List A) (i : ℕ) → i < length l → (x : A) × (at l i ≡ some x)
at-some [] i h = absurd (omega arith)
at-some (x ∷ l) zero h = (x, refl)
at-some (x ∷ l) (suc i) h = at-some l i (omega arith)

get-change_ne :
    {V : Type 0} (k j : ℕ) (v : V) (l : List (ℕ × V))
    → (k == j) ≡ false
    → get j (change k v l) ≡ get j l
unfolding get
get-change_ne k j v [] h = refl
get-change_ne k j v ((i, u) ∷ l) h = elim (Bool-cases (i == k)) [
  | inl e ↦ let f : (i == j) ≡ false = ground arith in rw e (rw f (get-change_ne k j v l h))
  | inr e ↦ rw e (ap (λ t. if i == j then some u else t) (get-change_ne k j v l h))
]

get-change_self :
    {V : Type 0} (k : ℕ) (v w : V) (l : List (ℕ × V))
    → get k l ≡ some w
    → get k (change k v l) ≡ some v
unfolding get
get-change_self k v w [] h = cc
get-change_self k v w ((i, u) ∷ l) h = elim (Bool-cases (i == k)) [
  | inl e ↦ rw e (rw e)
  | inr e ↦ rw e (rw e (get-change_self k v w l (rw e at h)))
]

module _ ⦃ht : HashTable⦄ where
  pub find-modify :
      {V : Type 0}
      → IsHashTable ht
      → (k j : ℕ) (v w : V) (t : ht.Table V) → IsConsistent ht t
      → ht.find k t ≡ some w
      → ht.find j (ht.modify k v t) ≡ (if k == j then some v else ht.find j t)
  find-modify {V} law k j v w t c h =
      (law.modify-IsConsistent V k v t c).0 j
      ∙ ap (get j) (law.entries-modify V k v t c)
      ∙ elim (Bool-cases (k == j)) [
        | inl e ↦
            let same : k ≡ j = (nat_beq_iff k j).0 e in
            rw e (rw (← same) (get-change_self k v w (ht.entries t) (sym (c.0 k) ∙ h)))
        | inr e ↦ rw e (get-change_ne k j v (ht.entries t) e ∙ sym (c.0 j))
      ]
