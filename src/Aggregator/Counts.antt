-- ===== src/Aggregator/Counts.antt =====
-- src/aggregator/striped_map.rs: the sum of the counts in a map.
use chalk_metrics.Aggregator.{AggSlot, StripedAggMap, Entry}
use chalk_metrics.Aggregator.Enumeration.{get-head, all_entries, Enumerates}
use chalk_metrics.Aggregator.Flushing.{all_entries-Enumerates}
use chalk_metrics.Aggregator.Invariant.{IsMap}
use chalk_metrics.Aggregator.Lookup.{entry_of}
use chalk_metrics.Deps.{Channel, HashTable, IsHashTable, AreDistinct}
use chalk_metrics.Float.{Float}
use chalk_metrics.Prelude.{
  ℕ, ◌≡◌, refl, sym, ap, ◌∙◌, List, [], ◌∷◌, Option, some, none, inl, inr, Bool-cases, false,
  if◌then◌else◌, ◌==◌, nat_eq, nat_beq_iff, ==_refl, arith,
}
use chalk_metrics.Prelude.HashMap.{get}
use chalk_metrics.Prelude.Int.{ℤ, pos, i64_add, IsI64, i64_add-IsI64}
use chalk_metrics.Prelude.Int.Residues.{i64_add_comm, i64_add_assoc}

module _ {V : Type 0} where
  abbrev remove : ℕ → List (ℕ × V) → List (ℕ × V)
  remove k [] = []
  remove k ((j, v) ∷ l) = if j == k then l else (j, v) ∷ remove k l

  get-remove :
      (k j : ℕ) (l : List (ℕ × V))
      → AreDistinct l
      → get j (remove k l) ≡ (if k == j then none else get j l)
  unfolding get
  get-remove k j [] d = ground arith
  get-remove k j ((i, v) ∷ l) d = elim (Bool-cases (i == k)) [
    | inl e ↦
        let own : i ≡ k = (nat_beq_iff i k).0 e in
        elim (Bool-cases (k == j)) [
          | inl f ↦ let same : i ≡ j = own ∙ (nat_beq_iff k j).0 f in rw e (rw f (rw same at d.0))
          | inr f ↦ let g : (i == j) ≡ false = rw own f in rw e (rw f (rw g))
        ]
    | inr e ↦ elim (Bool-cases (k == j)) [
      | inl f ↦
          let g : (i == j) ≡ false = rw (← (nat_beq_iff k j).0 f) e in
          rw e (rw g (rw f (get-remove k j l d.1 ∙ rw f)))
      | inr f ↦ rw e (rw f (ap (λ t. if i == j then some v else t) (get-remove k j l d.1 ∙ rw f)))
    ]
  ]

  remove-AreDistinct : (k : ℕ) (l : List (ℕ × V)) → AreDistinct l → AreDistinct (remove k l)
  remove-AreDistinct k [] d = tt
  remove-AreDistinct k ((i, v) ∷ l) d = elim (Bool-cases (i == k)) [
    | inl e ↦ rw e d.1
    | inr e ↦
        let other : (k == i) ≡ false = ground arith in
        rw e (get-remove k i l d.1 ∙ rw other d.0, remove-AreDistinct k l d.1)
  ]

  get-rest :
      (k j : ℕ) (v : V) (l : List (ℕ × V))
      → get j l ≡ none
      → get k l ≡ (if j == k then none else get k ((j, v) ∷ l))
  unfolding get
  get-rest k j v l absent = elim (Bool-cases (j == k)) [
    | inl e ↦ rw e (rw (← (nat_beq_iff j k).0 e) absent)
    | inr e ↦ rw e
  ]

  none-head : (k : ℕ) (v : V) (l : List (ℕ × V)) → get k [] ≡ get k ((k, v) ∷ l) → ⊥
  unfolding get
  none-head k v l h = let there = get-head k v l in cc

module _ ⦃fl : Float⦄ ⦃ht : HashTable⦄ ⦃ch : Channel⦄ where
  open fl use {F}

  abbrev pub count_of : Entry → ℤ
  count_of (k, AggSlot.count s) = s.value
  count_of (k, AggSlot.gauge s) = pos 0
  count_of (k, AggSlot.histogram s) = pos 0

  abbrev pub counts : List (ℕ × Entry) → ℤ
  counts [] = pos 0
  counts ((h, e) ∷ l) = i64_add (count_of e) (counts l)

  -- The sum of the counts that wait in the map.
  abbrev pub pending : StripedAggMap → ℤ
  pending m = counts (all_entries m.stripes)

  abbrev pub count_at : Option Entry → ℤ
  count_at none = pos 0
  count_at (some e) = count_of e

  pub counts-IsI64 : (l : List (ℕ × Entry)) → IsI64 (counts l)
  counts-IsI64 [] = omega arith
  counts-IsI64 ((h, e) ∷ l) = i64_add-IsI64 (count_of e) (counts l)

  pub swap : (a b c : ℤ) → i64_add a (i64_add b c) ≡ i64_add b (i64_add a c)
  swap a b c =
      sym (i64_add_assoc a b c) ∙ ap (λ x. i64_add x c) (i64_add_comm a b) ∙ i64_add_assoc b a c

  counts-remove :
      (k : ℕ) (l : List (ℕ × Entry)) → counts l ≡ i64_add (count_at (get k l)) (counts (remove k l))
  unfolding get i64_add
  counts-remove k [] = refl
  counts-remove k ((j, e) ∷ l) = elim (Bool-cases (j == k)) [
    | inl own ↦ rw own
    | inr apart ↦ rw apart (
        ap (i64_add (count_of e)) (counts-remove k l)
        ∙ swap (count_of e) (count_at (get k l)) (counts (remove k l)))
  ]

  -- The sum does not depend on the order.
  pub counts-ext :
      (l m : List (ℕ × Entry))
      → AreDistinct l
      → AreDistinct m
      → ((k : ℕ) → get k l ≡ get k m)
      → counts l ≡ counts m
  counts-ext [] [] d e same = refl
  counts-ext [] ((k, v) ∷ m) d e same = absurd (none-head k v m (same k))
  counts-ext ((j, v) ∷ l) m d e same =
      ap (i64_add (count_of v)) (counts-ext l (remove j m) d.1 (remove-AreDistinct j m e) rest)
      ∙ ap (λ o. i64_add (count_at o) (counts (remove j m))) (sym (get-head j v l) ∙ same j)
      ∙ sym (counts-remove j m)
    where
      rest : (k : ℕ) → get k l ≡ get k (remove j m)
      rest k =
          get-rest k j v l d.0
          ∙ ap (λ o. if j == k then none else o) (same k)
          ∙ sym (get-remove j k m e)

  module _ (law : IsHashTable ht) (m : StripedAggMap) (inv : IsMap m) where
    -- An entry that is put in changes the sum by what it has more than the one before it.
    pub pending_put :
        (c : ℕ) (e : Entry) (r : StripedAggMap) (d : ℤ)
        → IsMap r
        → ((h : ℕ) → entry_of r h ≡ (if c == h then some e else entry_of m h))
        → count_of e ≡ i64_add d (count_at (entry_of m c))
        → pending r ≡ i64_add d (pending m)
    pending_put c e r d inv' put more =
        counts-remove c new
        ∙ ap (λ o. i64_add (count_at o) (counts (remove c new))) own
        ∙ ap (i64_add (count_of e)) others
        ∙ ap (λ x. i64_add x (counts (remove c old))) more
        ∙ i64_add_assoc d (count_at (entry_of m c)) (counts (remove c old))
        ∙ ap (λ o. i64_add d (i64_add (count_at o) (counts (remove c old)))) (sym (n.lookup c))
        ∙ ap (i64_add d) (sym (counts-remove c old))
      where
        old : List (ℕ × Entry)
        old = all_entries m.stripes

        new : List (ℕ × Entry)
        new = all_entries r.stripes

        n : Enumerates law m old
        n = all_entries-Enumerates law m inv

        n' : Enumerates law r new
        n' = all_entries-Enumerates law r inv'

        own : get c new ≡ some e
        own = n'.lookup c ∙ put c ∙ rw (==_refl c)

        changed : (h : ℕ) → get h new ≡ (if c == h then some e else get h old)
        changed h = n'.lookup h ∙ put h ∙ ap (λ o. if c == h then some e else o) (sym (n.lookup h))

        apart : (h : ℕ) → get h (remove c new) ≡ get h (remove c old)
        apart h =
            get-remove c h new n'.distinct
            ∙ elim (Bool-cases (c == h)) [ inl x ↦ rw x | inr x ↦ rw x (changed h ∙ rw x) ]
            ∙ sym (get-remove c h old n.distinct)

        others : counts (remove c new) ≡ counts (remove c old)
        others =
            counts-ext (remove c new) (remove c old) (remove-AreDistinct c new n'.distinct)
              (remove-AreDistinct c old n.distinct) apart
