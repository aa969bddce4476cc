-- ===== src/Aggregator/Lookup.antt =====
-- src/aggregator/striped_map.rs: what a recording does to the slot of every key.
use chalk_metrics.Aggregator.{
  TagsData, AggKey, AggSlot, StripedAggMap, Identity, Entry, combined, stripe_index, at, set_at,
  record_in, in_stripe,
}
use chalk_metrics.Aggregator.Tables.{
  length-set_at, All-at, All-set_at, at-set_at_self, at-set_at_ne, at-some, find-modify,
}
use chalk_metrics.Deps.{Channel, HashTable, IsHashTable, IsConsistent, HasRoom}
use chalk_metrics.Float.{Float}
use chalk_metrics.Prelude.{
  ℕ, ◌<◌, ◌≡◌, refl, sym, ap, ◌∙◌, length, Option, some, none, inl, inr, Bool-cases, false,
  Option-cases, if◌then◌else◌, ◌==◌, nat_eq, nat_beq_iff, ==_ne, Outcome, All, subst, ok, Returns,
  arith,
}

pub other_key : (a b : ℕ) → (stripe_index a == stripe_index b) ≡ false → (a == b) ≡ false
other_key a b h = ==_ne a b λ e. cc ((nat_beq_iff _ _).1 (ap stripe_index e))

module _ ⦃fl : Float⦄ ⦃ht : HashTable⦄ ⦃ch : Channel⦄ where
  open fl use {F}

  -- The entry of a combined hash.
  abbrev pub entry_of : StripedAggMap → ℕ → Option Entry
  entry_of m h = elim (at m.stripes (stripe_index h)) [ none ↦ none | some t ↦ ht.find h t ]

  -- There are 64 stripes.
  abbrev pub IsStriped : StripedAggMap → Type 0
  IsStriped m = length m.stripes ≡ 64

  -- Every table is consistent.
  abbrev pub HasTables : StripedAggMap → Type 0
  HasTables m = All (λ (t : ht.Table Entry). IsConsistent ht t) m.stripes

  -- The table of the hash has room, if it does not have the hash.
  abbrev pub HasRoomFor : StripedAggMap → ℕ → Type 0
  HasRoomFor m h =
      (t : ht.Table Entry)
      → at m.stripes (stripe_index h) ≡ some t
      → entry_of m h ≡ none
      → HasRoom ht t

  -- The entry that a recording leaves under its own key.
  abbrev pub recorded : (AggSlot F → AggSlot F) → Entry → Option Entry → Entry
  recorded old new none = new
  recorded old new (some (k, slot)) = (k, old slot)

  abbrev pub fresh_entry : Identity → TagsData → AggSlot F → Entry
  fresh_entry i tags new =
      (record { namespace = i.namespace; metric_name = i.metric_name; tags_data = tags }, new)

  -- The map behind a recording: the entry of its own hash, changed or put in, and the others as
  -- they were.
  abbrev pub IsRecorded :
      StripedAggMap → Identity → (AggSlot F → AggSlot F) → Entry → StripedAggMap → Type 0
  IsRecorded m i old new r =
      IsStriped r
      × ((h : ℕ)
          → entry_of r h ≡ (
              if combined i == h
              then some (recorded old new (entry_of m (combined i)))
              else entry_of m h))

  pub entry_at :
      (m : StripedAggMap) (h : ℕ) (t : ht.Table Entry)
      → at m.stripes (stripe_index h) ≡ some t
      → entry_of m h ≡ ht.find h t
  entry_at m h t e = rw (e, entry_of)

  pub entry_same :
      (m r : StripedAggMap) (h : ℕ)
      → at r.stripes (stripe_index h) ≡ at m.stripes (stripe_index h)
      → entry_of r h ≡ entry_of m h
  entry_same m r h e = rw (e, entry_of)

  -- The stripe of a hash has a table with an entry put at it, and nothing else has changed.
  pub record IsPut (m : StripedAggMap) (c : ℕ) (e : Entry) (r : StripedAggMap) : Type 0 where
    pub table : ht.Table Entry
    pub table' : ht.Table Entry
    pub here : at m.stripes (stripe_index c) ≡ some table
    pub within : stripe_index c < length m.stripes
    pub stripes : r.stripes ≡ set_at m.stripes (stripe_index c) table'
    pub found : (j : ℕ) → ht.find j table' ≡ (if c == j then some e else ht.find j table)
    pub consistent : IsConsistent ht table'
    pub max_buckets : r.max_buckets ≡ m.max_buckets
    pub initial_error : r.initial_error ≡ m.initial_error
    pub raw_sender : r.raw_sender ≡ m.raw_sender

  module _ (m : StripedAggMap) (c : ℕ) (e : Entry) (r : StripedAggMap) (p : IsPut m c e r) where
    pub IsPut-IsStriped : IsStriped m → IsStriped r
    IsPut-IsStriped striped =
        ap length p.stripes ∙ length-set_at m.stripes (stripe_index c) p.table' ∙ striped

    pub IsPut-HasTables : HasTables m → HasTables r
    IsPut-HasTables tables =
        subst (All (λ (t : ht.Table Entry). IsConsistent ht t)) (sym p.stripes) (
          All-set_at (λ (t : ht.Table Entry). IsConsistent ht t) m.stripes (stripe_index c) p.table'
            tables p.consistent)

    at_own : at r.stripes (stripe_index c) ≡ some p.table'
    at_own =
        ap (λ l. at l (stripe_index c)) p.stripes
        ∙ at-set_at_self m.stripes (stripe_index c) p.table' p.within

    pub IsPut-entry_of : (h : ℕ) → entry_of r h ≡ (if c == h then some e else entry_of m h)
    IsPut-entry_of h = elim (Bool-cases (stripe_index c == stripe_index h)) [
      | inl x ↦
          let same : stripe_index h ≡ stripe_index c = sym ((nat_beq_iff _ _).0 x) in
          entry_at r h p.table' (ap (at r.stripes) same ∙ at_own)
          ∙ p.found h
          ∙ ap (λ y. if c == h then some e else y)
              (sym (entry_at m h p.table (ap (at m.stripes) same ∙ p.here)))
      | inr x ↦
          entry_same m r h (
            ap (λ l. at l (stripe_index h)) p.stripes
            ∙ at-set_at_ne m.stripes (stripe_index c) (stripe_index h) p.table' x)
          ∙ rw (other_key c h x)
    ]

  module _ (law : IsHashTable ht) (m : StripedAggMap) (i : Identity)
      (occupied : AggSlot F → Outcome (AggSlot F)) (vacant : Outcome (AggSlot F))
      (striped : IsStriped m) (tables : HasTables m) where
    at-IsConsistent :
        (t : ht.Table Entry) → at m.stripes (stripe_index (combined i)) ≡ some t → IsConsistent ht t
    at-IsConsistent t here =
        All-at (λ (t : ht.Table Entry). IsConsistent ht t) m.stripes (stripe_index (combined i)) t
          tables here

    -- A change of one table, seen from the map.
    in_stripe-IsPut :
        (f : ht.Table Entry → Outcome (ht.Table Entry)) (e : Entry)
        → ((t : ht.Table Entry)
            → at m.stripes (stripe_index (combined i)) ≡ some t
            → Returns (f t) λ r.
              IsConsistent ht r
              × ((j : ℕ) → ht.find j r ≡ (if combined i == j then some e else ht.find j t)))
        → Returns (in_stripe m (stripe_index (combined i)) f) (IsPut m (combined i) e)
    unfolding in_stripe
    in_stripe-IsPut f e put =
        let idx = stripe_index (combined i) in
        let within : idx < length m.stripes = unfold stripe_index in omega (arith, striped) in
        let (t, here) = at-some m.stripes idx within in
        let (t', run, (consistent, found)) = put t here in
        (
          record m { stripes = set_at m.stripes idx t' },
          rw here (rw run),
          record {
            table = t;
            table' = t';
            here = here;
            within = within;
            stripes = refl;
            found = found;
            consistent = consistent;
            max_buckets = refl;
            initial_error = refl;
            raw_sender = refl;
          },
        )

    -- A slot that is there is changed in place, and keeps its key.
    pub record_in-occupied :
        (k : AggKey) (s s' : AggSlot F)
        → entry_of m (combined i) ≡ some (k, s)
        → occupied s ≡ ok s'
        → Returns
            (in_stripe m (stripe_index (combined i)) (record_in i occupied vacant))
            (IsPut m (combined i) (k, s'))
    unfolding record_in
    record_in-occupied k s s' there of_old =
        in_stripe-IsPut (record_in i occupied vacant) (k, s')
          λ t here.
            let present : ht.find (combined i) t ≡ some (k, s) =
              sym (entry_at m (combined i) t here) ∙ there in
            (
              ht.modify (combined i) (k, s') t,
              rw (present, record_in) (rw of_old),
              (
                law.modify-IsConsistent Entry (combined i) (k, s') t (at-IsConsistent t here),
                λ j.
                    find-modify law (combined i) j (k, s') (k, s) t (at-IsConsistent t here)
                      present,
              ),
            )

    -- Otherwise the fresh one is put in.
    pub record_in-vacant :
        (new : AggSlot F) (tags : TagsData)
        → HasRoomFor m (combined i)
        → entry_of m (combined i) ≡ none
        → vacant ≡ ok new
        → i.make_tags ≡ ok tags
        → Returns
            (in_stripe m (stripe_index (combined i)) (record_in i occupied vacant))
            (IsPut m (combined i) (fresh_entry i tags new))
    unfolding record_in
    record_in-vacant new tags room there of_new of_tags =
        in_stripe-IsPut (record_in i occupied vacant) (fresh_entry i tags new) λ t here.
          let absent : ht.find (combined i) t ≡ none =
            sym (entry_at m (combined i) t here) ∙ there in
          (
            ht.insert (combined i) (fresh_entry i tags new) t,
            rw (absent, record_in) (rw of_new (rw of_tags)),
            law.find-insert Entry (combined i) (fresh_entry i tags new) t (at-IsConsistent t here)
                absent (room t here there),
          )

    -- Both cases, where the change of a slot is a function.
    pub record_in-IsPut :
        (old : AggSlot F → AggSlot F) (new : AggSlot F) (tags : TagsData)
        → HasRoomFor m (combined i)
        → ((s : AggSlot F) → occupied s ≡ ok (old s))
        → vacant ≡ ok new
        → i.make_tags ≡ ok tags
        → Returns
            (in_stripe m (stripe_index (combined i)) (record_in i occupied vacant))
            (IsPut m (combined i) (recorded old (fresh_entry i tags new) (entry_of m (combined i))))
    record_in-IsPut old new tags room of_old of_new of_tags =
        elim (Option-cases (entry_of m (combined i))) [
          | inl absent ↦ rw absent (record_in-vacant new tags room absent of_new of_tags)
          | inr ((k, s), there) ↦ rw there (record_in-occupied k s (old s) there (of_old s))
        ]

  pub IsPut-IsRecorded :
      (m : StripedAggMap) (i : Identity) (old : AggSlot F → AggSlot F) (new : Entry)
      (r : StripedAggMap)
      → IsStriped m
      → IsPut m (combined i) (recorded old new (entry_of m (combined i))) r
      → IsRecorded m i old new r
  IsPut-IsRecorded m i old new r striped p =
      (IsPut-IsStriped m _ _ r p striped, IsPut-entry_of m _ _ r p)
