-- ===== src/Aggregator/Invariant.antt =====
-- src/aggregator/striped_map.rs: what holds of a map at any time.
use Prim.Native.Nat.{zero}
use chalk_metrics.Aggregator.{
  AggKey, AggSlot, StripedAggMap, RawDistributionPoint, Entry, stripe_index, at, set_at, new_map,
}
use chalk_metrics.Slots.Histogram.Values.{AreSettings, IsHistogram}
use chalk_metrics.Aggregator.Lookup.{
  entry_of, HasTables, IsStriped, IsPut, IsPut-HasTables, IsPut-IsStriped, IsPut-entry_of,
}
use chalk_metrics.Deps.{Channel, HashTable, IsHashTable, IsConsistent, AreDistinct}
use chalk_metrics.Float.{Float}
use chalk_metrics.Prelude.{
  ℕ, suc, ◌+◌, ◌≡◌, refl, sym, ap, ◌∙◌, List, [], ◌∷◌, replicate, Option, some, none, inl, inr,
  Bool-cases, false, ==_ne, ◌==◌, nat_eq, nat_beq_iff, arith, subst, All,
}
use chalk_metrics.Prelude.HashMap.{get}
use chalk_metrics.Sketch.Links.Represents.{Buckets}

module _ ⦃fl : Float⦄ ⦃ht : HashTable⦄ ⦃ch : Channel⦄ where
  open fl use {F}

  abbrev pub IsGoodSlot : AggSlot F → Type 0
  IsGoodSlot (AggSlot.histogram s) = (l : Buckets) × IsHistogram s l
  IsGoodSlot (AggSlot.count s) = Unit {0}
  IsGoodSlot (AggSlot.gauge s) = Unit {0}

  -- From the stripe `j` on, each table holds hashes of its own stripe alone.
  abbrev pub ArePlaced : ℕ → List (ht.Table Entry) → Type 0
  ArePlaced j [] = Unit {0}
  ArePlaced j (t ∷ ts) =
      ((h : ℕ) → (stripe_index h == j) ≡ false → ht.find h t ≡ none) × ArePlaced (suc j) ts

  -- There are 64 stripes, every table is consistent, a hash is in its own stripe alone, the sketches are in order, and new
  -- ones can be made.
  pub record IsMap (m : StripedAggMap) : Type 0 where
    pub striped : IsStriped m
    pub tables : HasTables m
    pub placed : ArePlaced 0 m.stripes
    pub good : (h : ℕ) (k : AggKey) (s : AggSlot F) → entry_of m h ≡ some (k, s) → IsGoodSlot s
    pub settings : AreSettings m.max_buckets m.initial_error

  ArePlaced-at :
      (j i k : ℕ) (ts : List (ht.Table Entry)) (t : ht.Table Entry)
      → k ≡ j + i
      → ArePlaced j ts
      → at ts i ≡ some t
      → (h : ℕ) → (stripe_index h == k) ≡ false
      → ht.find h t ≡ none
  ArePlaced-at j i k [] t e p a h n = cc
  ArePlaced-at j zero k (u ∷ ts) t e p a h n =
      let own : k ≡ j = omega (arith, e) in rw (some-eq a) at (p.0 h (rw own at n))
    where
      some-eq : some u ≡ some t → u ≡ t
      some-eq x = cc
  ArePlaced-at j (suc i) k (u ∷ ts) t e p a h n =
      ArePlaced-at (suc j) i k ts t (omega (arith, e)) p.1 a h n

  ArePlaced-set_at :
      (j i k : ℕ) (ts : List (ht.Table Entry)) (t : ht.Table Entry)
      → k ≡ j + i
      → ArePlaced j ts
      → ((h : ℕ) → (stripe_index h == k) ≡ false → ht.find h t ≡ none)
      → ArePlaced j (set_at ts i t)
  ArePlaced-set_at j i k [] t e p f = tt
  ArePlaced-set_at j zero k (u ∷ ts) t e p f =
      let own : k ≡ j = omega (arith, e) in (λ h n. f h (rw own n), p.1)
  ArePlaced-set_at j (suc i) k (u ∷ ts) t e p f =
      (p.0, ArePlaced-set_at (suc j) i k ts t (omega (arith, e)) p.1 f)

  -- An entry that is put in keeps the invariant, if its slot is a good one.
  pub IsPut-IsMap :
      (m : StripedAggMap) (c : ℕ) (e : Entry) (r : StripedAggMap)
      → IsMap m
      → IsPut m c e r
      → IsGoodSlot e.1
      → IsMap r
  IsPut-IsMap m c e r inv p g = record {
    striped = IsPut-IsStriped m c e r p inv.striped;
    tables = IsPut-HasTables m c e r p inv.tables;
    placed = subst (ArePlaced 0) (sym p.stripes) (
        ArePlaced-set_at 0 (stripe_index c) (stripe_index c) m.stripes p.table' (omega arith)
          inv.placed elsewhere);
    good = still;
    settings = record {
      room = rw p.max_buckets inv.settings.room;
      error_range = rw p.initial_error inv.settings.error_range;
    };
  }
    where
      some_slot : (k : AggKey) (s : AggSlot F) → some e ≡ some (k, s) → e.1 ≡ s
      some_slot k s x = cc

      elsewhere : (h : ℕ) → (stripe_index h == stripe_index c) ≡ false → ht.find h p.table' ≡ none
      elsewhere h n =
          let apart : (c == h) ≡ false =
            ==_ne c h λ x. cc ((nat_beq_iff _ _).1 (ap stripe_index (sym x)), n) in
          p.found h
          ∙ rw apart (
              ArePlaced-at 0 (stripe_index c) (stripe_index c) m.stripes p.table (omega arith)
                inv.placed p.here h n)

      still : (h : ℕ) (k : AggKey) (s : AggSlot F) → entry_of r h ≡ some (k, s) → IsGoodSlot s
      still h k s x = elim (Bool-cases (c == h)) [
        | inl own ↦
            let same : some e ≡ some (k, s) = (rw own at (sym (IsPut-entry_of m c e r p h))) ∙ x in
            subst IsGoodSlot (some_slot k s same) g
        | inr apart ↦ inv.good h k s ((rw apart at (sym (IsPut-entry_of m c e r p h))) ∙ x)
      ]

  ArePlaced-replicate : IsHashTable ht → (j n : ℕ) → ArePlaced j (replicate n ht.empty)
  ArePlaced-replicate law j zero = tt
  ArePlaced-replicate law j (suc n) =
      (λ h x. law.find-empty Entry h, ArePlaced-replicate law (suc j) n)

  get-nil : (h : ℕ) → get {V = Entry} h [] ≡ none
  unfolding get
  get-nil h = refl

  tables-replicate :
      IsHashTable ht
      → (n : ℕ) → All (λ (t : ht.Table Entry). IsConsistent ht t) (replicate n ht.empty)
  tables-replicate law zero = tt
  tables-replicate law (suc n) = (
    (
      λ h. law.find-empty Entry h ∙ sym (ap (get h) (law.entries-empty Entry) ∙ get-nil h),
      subst AreDistinct (sym (law.entries-empty Entry)) tt,
    ),
    tables-replicate law n,
  )

  at-replicate :
      IsHashTable ht
      → (n i h : ℕ)
      → (elim (at (replicate n ht.empty) i) [ none ↦ none | some t ↦ ht.find {V = Entry} h t ])
        ≡ none
  at-replicate law zero i h = refl
  at-replicate law (suc n) zero h = law.find-empty Entry h
  at-replicate law (suc n) (suc i) h = at-replicate law n i h

  -- A new map holds nothing, and is in order.
  pub new_map-IsMap :
      IsHashTable ht
      → (max_buckets : ℕ) (initial_error : F) (sender : Option (ch.Queue (RawDistributionPoint F)))
      → AreSettings max_buckets initial_error
      → IsMap (new_map max_buckets initial_error sender)
        × ((h : ℕ) → entry_of (new_map max_buckets initial_error sender) h ≡ none)
  unfolding new_map
  new_map-IsMap law max_buckets initial_error sender h = (
    record {
      striped = refl;
      tables = tables-replicate law 64;
      placed = ArePlaced-replicate law 0 64;
      good = λ x k s e. cc (at-replicate law 64 (stripe_index x) x);
      settings = h;
    },
    λ x. at-replicate law 64 (stripe_index x) x,
  )
