-- ===== src/Aggregator/Enumeration.antt =====
-- src/aggregator/striped_map.rs: the entries of all stripes as one list, in the order of `flush`.
use Prim.Native.Nat.{zero}
use chalk_metrics.Aggregator.{StripedAggMap, Entry, stripe_index, at}
use chalk_metrics.Aggregator.Invariant.{ArePlaced}
use chalk_metrics.Aggregator.Lookup.{entry_of}
use chalk_metrics.Deps.{Channel, HashTable, IsHashTable, IsConsistent, AreDistinct, keep}
use chalk_metrics.Float.{Float}
use chalk_metrics.Prelude.{
  ℕ, suc, ◌+◌, ◌<◌, ◌≡◌, refl, sym, ap, ◌∙◌, List, [], ◌∷◌, ◌++◌, Option, some, none, inl, inr, ◌⊎◌,
  Bool-cases, Option-cases, false, ◌==◌, nat_eq, nat_beq_iff, ==_ne, ==_refl, arith, All,
}
use chalk_metrics.Prelude.HashMap.{get}

module _ {V : Type 0} where
  get-append_none : (k : ℕ) (l m : List (ℕ × V)) → get k l ≡ none → get k (l ++ m) ≡ get k m
  unfolding get
  get-append_none k [] m h = refl
  get-append_none k ((j, v) ∷ l) m h = ground (arith, get-append_none k l m)

  get-append_some :
      (k : ℕ) (v : V) (l m : List (ℕ × V)) → get k l ≡ some v → get k (l ++ m) ≡ some v
  unfolding get
  get-append_some k v [] m h = cc
  get-append_some k v ((j, w) ∷ l) m h = ground (arith, get-append_some k v l m)

  pub get-head : (k : ℕ) (v : V) (l : List (ℕ × V)) → get k ((k, v) ∷ l) ≡ some v
  unfolding get
  get-head k v l = rw (==_refl k)

  get-tail : (k j : ℕ) (v : V) (l : List (ℕ × V)) → get j ((k, v) ∷ l) ≡ none → get j l ≡ none
  unfolding get
  get-tail k j v l h = ground arith

  get-cons :
      (k j : ℕ) (v w : V) (l : List (ℕ × V))
      → get k l ≡ none
      → get j l ≡ some w
      → get j ((k, v) ∷ l) ≡ some w
  unfolding get
  get-cons k j v w l absent there =
      let apart : (k == j) ≡ false = ==_ne k j λ e. cc (ap (λ x. get x l) e) in rw apart there

  AreDistinct-append :
      (l m : List (ℕ × V))
      → AreDistinct l
      → AreDistinct m
      → ((k : ℕ) → (get k l ≡ none) ⊎ (get k m ≡ none))
      → AreDistinct (l ++ m)
  AreDistinct-append [] m d e apart = e
  AreDistinct-append ((k, v) ∷ l) m d e apart = (
    get-append_none k l m d.0 ∙ (elim (apart k) [ inl x ↦ cc (get-head k v l) | inr x ↦ x ]),
    AreDistinct-append l m d.1 e
        λ j. elim (apart j) [ inl x ↦ inl (get-tail k j v l x) | inr x ↦ inr x ],
  )

  -- What holds of every value that is found holds of all.
  pub All-get :
      (P : V → Type 0) (l : List (ℕ × V))
      → AreDistinct l
      → ((k : ℕ) (v : V) → get k l ≡ some v → P v)
      → All (λ e. P e.1) l
  All-get P [] d h = tt
  All-get P ((k, v) ∷ l) d h =
      (h k v (get-head k v l), All-get P l d.1 λ j w there. h j w (get-cons k j v w l d.0 there))

  abbrev pub kept_by : (V → Option V) → Option V → Option V
  kept_by f none = none
  kept_by f (some v) = f v

  pub get-keep :
      (f : V → Option V) (k : ℕ) (l : List (ℕ × V))
      → AreDistinct l
      → get k (keep f l) ≡ kept_by f (get k l)
  unfolding get
  get-keep f k [] d = refl
  get-keep f k ((j, w) ∷ l) d = elim (Option-cases (f w)) [
    | inl gone ↦ elim (Bool-cases (j == k)) [
      | inl e ↦
          let absent : get k l ≡ none = rw ((nat_beq_iff j k).0 e) at d.0 in
          rw (gone, keep) (rw e (get-keep f k l d.1 ∙ ap (kept_by f) absent ∙ sym gone))
      | inr e ↦ rw (gone, keep) (rw e (get-keep f k l d.1))
    ]
    | inr (v, stays) ↦ elim (Bool-cases (j == k)) [
      | inl e ↦ rw (stays, keep) (rw e (sym stays))
      | inr e ↦ rw (stays, keep) (rw e (get-keep f k l d.1))
    ]
  ]

module _ ⦃fl : Float⦄ ⦃ht : HashTable⦄ ⦃ch : Channel⦄ where
  open fl use {F}

  abbrev pub all_entries : List (ht.Table Entry) → List (ℕ × Entry)
  all_entries [] = []
  all_entries (t ∷ ts) = ht.entries t ++ all_entries ts

  -- Each of the tables is consistent.
  abbrev pub AreConsistent : List (ht.Table Entry) → Type 0
  AreConsistent ts = All (λ (t : ht.Table Entry). IsConsistent ht t) ts

  module _ (law : IsHashTable ht) where
    beyond :
        (j h : ℕ) (ts : List (ht.Table Entry))
        → AreConsistent ts
        → ArePlaced j ts
        → stripe_index h < j
        → get h (all_entries ts) ≡ none
    unfolding get
    beyond j h [] a p b = refl
    beyond j h (t ∷ ts) a p b =
        get-append_none h (ht.entries t) (all_entries ts) (sym (a.0.0 h) ∙ p.0 h (ground arith))
        ∙ beyond (suc j) h ts a.1 p.1 (omega arith)

    pub get-all_entries :
        (j i h : ℕ) (ts : List (ht.Table Entry))
        → AreConsistent ts
        → ArePlaced j ts
        → stripe_index h ≡ j + i
        → get h (all_entries ts) ≡ (elim (at ts i) [ none ↦ none | some t ↦ ht.find h t ])
    unfolding get
    get-all_entries j i h [] a p e = refl
    get-all_entries j zero h (t ∷ ts) a p e = elim (Option-cases (ht.find h t)) [
      | inl absent ↦
          get-append_none h (ht.entries t) (all_entries ts) (sym (a.0.0 h) ∙ absent)
          ∙ beyond (suc j) h ts a.1 p.1 (omega (arith, e))
          ∙ sym absent
      | inr (v, there) ↦
          get-append_some h v (ht.entries t) (all_entries ts) (sym (a.0.0 h) ∙ there) ∙ sym there
    ]
    get-all_entries j (suc i) h (t ∷ ts) a p e =
        get-append_none h (ht.entries t) (all_entries ts)
          (sym (a.0.0 h) ∙ p.0 h (ground (arith, e)))
        ∙ get-all_entries (suc j) i h ts a.1 p.1 (omega (arith, e))

    pub all_entries-AreDistinct :
        (j : ℕ) (ts : List (ht.Table Entry))
        → AreConsistent ts
        → ArePlaced j ts
        → AreDistinct (all_entries ts)
    all_entries-AreDistinct j [] a p = tt
    all_entries-AreDistinct j (t ∷ ts) a p =
        AreDistinct-append (ht.entries t) (all_entries ts) a.0.1
          (all_entries-AreDistinct (suc j) ts a.1 p.1)
          λ k. elim (Bool-cases (stripe_index k == j)) [
            | inl own ↦ inr (beyond (suc j) k ts a.1 p.1 (ground arith))
            | inr other ↦ inl (sym (a.0.0 k) ∙ p.0 k other)
          ]

    -- The list has every entry once, under its hash.
    pub record Enumerates (m : StripedAggMap) (l : List (ℕ × Entry)) : Type 0 where
      pub distinct : AreDistinct l
      pub lookup : (h : ℕ) → get h l ≡ entry_of m h
