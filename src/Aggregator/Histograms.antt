-- ===== src/Aggregator/Histograms.antt =====
-- src/aggregator/striped_map.rs: `record_histogram`.
use chalk_metrics.Aggregator.{
  in_stripe, stripe_index, record_in, TagsData, AggSlot, RawDistributionPoint, StripedAggMap,
  Identity, Entry, combined, histogram_occupied, histogram_vacant, send_raw, record_histogram,
}
use chalk_metrics.Aggregator.Invariant.{IsMap, IsGoodSlot, IsPut-IsMap}
use chalk_metrics.Aggregator.Lookup.{
  entry_of, HasRoomFor, fresh_entry, IsPut, IsPut-entry_of, record_in-occupied, record_in-vacant,
}
use chalk_metrics.Deps.{Channel, HashTable, IsHashTable, IsChannel}
use chalk_metrics.Float.{Float, IsFloat}
use chalk_metrics.Prelude.{
  ℕ, ◌≤◌, ◌<◌, ◌≡◌, refl, ◌∙◌, [], ◌∷◌, ◌++◌, length, Option, some, none, inl, inr, ◌⊎◌,
  if◌then◌else◌, ◌==◌, nat_eq, Option-cases, Bool-cases, true, false, Outcome, ok, Returns, arith,
}
use chalk_metrics.Slots.Histogram.{HistogramSlot}
use chalk_metrics.Slots.Histogram.Values.{
  IsHistogram, Observes, record_histogram_slot-Observes, new_histogram-IsHistogram,
}

module _ ⦃fl : Float⦄ ⦃ht : HashTable⦄ ⦃ch : Channel⦄ where
  open fl use {F}

  -- The entry under a hash, before and after a value: a histogram takes the value, a slot of
  -- another kind stays, and a missing entry becomes a new histogram that takes the value.
  abbrev pub Observed : Identity → TagsData → F → Option Entry → Entry → Type 0
  Observed i tags v none e =
      (s : HistogramSlot F) × (s' : HistogramSlot F) × IsHistogram s []
      × (s.sketch.num_values ≡ 0)
      × Observes s v s'
      × (e ≡ fresh_entry i tags (AggSlot.histogram s'))
  Observed i tags v (some (k, AggSlot.histogram s)) e =
      (s' : HistogramSlot F) × Observes s v s' × (e ≡ (k, AggSlot.histogram s'))
  Observed i tags v (some (k, AggSlot.count s)) e = e ≡ (k, AggSlot.count s)
  Observed i tags v (some (k, AggSlot.gauge s)) e = e ≡ (k, AggSlot.gauge s)

  -- The map behind a recording of a histogram.
  pub record IsObserved (m : StripedAggMap) (i : Identity) (tags : TagsData) (v : F)
      (r : StripedAggMap) : Type 0 where
    pub in_order : IsMap r
    pub raw_sender : r.raw_sender ≡ m.raw_sender
    pub entry : Entry
    pub effect : Observed i tags v (entry_of m (combined i)) entry
    pub entry_of_lem :
        (h : ℕ) → entry_of r h ≡ (if combined i == h then some entry else entry_of m h)

  module _ (law : IsFloat fl) (lawful : IsHashTable ht) (fuel : ℕ) (m : StripedAggMap)
      (i : Identity) (tags : TagsData) (v : F) (f : 65 ≤ fuel) (inv : IsMap m)
      (of_tags : i.make_tags ≡ ok tags) (room : HasRoomFor m (combined i)) where
    abbrev occupied : AggSlot F → Outcome (AggSlot F)
    occupied = histogram_occupied fuel v

    observed :
        (e : Entry) (r : StripedAggMap)
        → IsPut m (combined i) e r
        → IsGoodSlot e.1
        → Observed i tags v (entry_of m (combined i)) e
        → IsObserved m i tags v r
    observed e r p g o = record {
      in_order = IsPut-IsMap m (combined i) e r inv p g;
      raw_sender = p.raw_sender;
      entry = e;
      effect = o;
      entry_of_lem = IsPut-entry_of m (combined i) e r p;
    }

    quiet_lem :
        m.raw_sender ≡ none
        → record_histogram fuel m i v
          ≡ in_stripe m
              (stripe_index (combined i))
              (record_in i occupied (histogram_vacant fuel m v))
    unfolding record_histogram
    quiet_lem quiet = simp (quiet, record_histogram)

    -- With a lawful float and hash table, 65 rounds of fuel, a map in order without a sender of raw
    -- points, room in the table of the hash where it is not there, and tags that are made without a
    -- panic: recording a histogram value returns a map in order, where the entry of its own
    -- combined hash alone has changed. A histogram there takes the value, a slot of another kind
    -- stays, and a missing entry is a new histogram that takes the value. A NaN leaves a sketch as
    -- it is.
    pub record_histogram-IsObserved :
        m.raw_sender ≡ none → Returns (record_histogram fuel m i v) (IsObserved m i tags v)
    unfolding record_histogram histogram_occupied histogram_vacant
    record_histogram-IsObserved quiet = elim (Option-cases (entry_of m (combined i))) [
      | inl absent ↦
          let (s, run, (good, empty)) =
            new_histogram-IsHistogram m.max_buckets m.initial_error inv.settings in
          let (s', run', (o, good')) = record_histogram_slot-Observes law fuel s [] v f good in
          let e = fresh_entry i tags (AggSlot.histogram s') in
          let (r, go, p) =
            record_in-vacant lawful m i occupied (histogram_vacant fuel m v) inv.striped inv.tables
              (AggSlot.histogram s') tags room absent (rw run (rw run')) of_tags in
          (r, quiet_lem quiet ∙ go, observed e r p good' (rw absent (s, s', good, empty, o, refl)))
      | inr ((k, AggSlot.histogram s), there) ↦
          let (l, good) = inv.good (combined i) k (AggSlot.histogram s) there in
          let (s', run', (o, good')) = record_histogram_slot-Observes law fuel s l v f good in
          let (r, go, p) =
            record_in-occupied lawful m i occupied (histogram_vacant fuel m v) inv.striped
              inv.tables k (AggSlot.histogram s) (AggSlot.histogram s') there (rw run') in
          (
            r,
            quiet_lem quiet ∙ go,
            observed (k, AggSlot.histogram s') r p good' (rw there (s', o, refl)),
          )
      | inr ((k, AggSlot.count s), there) ↦
          let (r, go, p) =
            record_in-occupied lawful m i occupied (histogram_vacant fuel m v) inv.striped
              inv.tables k (AggSlot.count s) (AggSlot.count s) there refl in
          (r, quiet_lem quiet ∙ go, observed (k, AggSlot.count s) r p tt (rw there refl))
      | inr ((k, AggSlot.gauge s), there) ↦
          let (r, go, p) =
            record_in-occupied lawful m i occupied (histogram_vacant fuel m v) inv.striped
              inv.tables k (AggSlot.gauge s) (AggSlot.gauge s) there refl in
          (r, quiet_lem quiet ∙ go, observed (k, AggSlot.gauge s) r p tt (rw there refl))
    ]

  -- The raw point of a recording.
  abbrev pub point_of : Identity → TagsData → F → RawDistributionPoint F
  point_of i tags v = record {
    namespace = i.namespace;
    metric_name = i.metric_name;
    tags = tags;
    value = v;
  }

  -- The map behind a recording that has a sender: the point waits at the end of the channel, or is
  -- dropped where the channel is full or its receiver has been dropped, and nothing else changes.
  pub record IsSent (m : StripedAggMap) (q : ch.Queue (RawDistributionPoint F))
      (p : RawDistributionPoint F) (r : StripedAggMap) : Type 0 where
    pub stripes : r.stripes ≡ m.stripes
    pub max_buckets : r.max_buckets ≡ m.max_buckets
    pub initial_error : r.initial_error ≡ m.initial_error
    pub queue : ch.Queue (RawDistributionPoint F)
    pub raw_sender : r.raw_sender ≡ some queue
    pub sent :
        ((ch.is_closed q ≡ false)
          × (length (ch.waiting q) < ch.capacity q)
          × (ch.waiting queue ≡ ch.waiting q ++ p ∷ [])
          × (ch.capacity queue ≡ ch.capacity q)
          × (ch.is_closed queue ≡ false))
        ⊎ (((ch.is_closed q ≡ true) ⊎ (ch.capacity q ≤ length (ch.waiting q))) × (queue ≡ q))

  -- With a lawful channel and tags that are made without a panic: recording a histogram value on a
  -- map with a sender of raw points returns, leaves every stripe as it was, and puts the raw point
  -- at the end of the channel, or drops it where the channel is full or has lost its receiver.
  pub record_histogram-IsSent :
      IsChannel ch
      → (fuel : ℕ) (m : StripedAggMap) (i : Identity) (tags : TagsData) (v : F)
        (q : ch.Queue (RawDistributionPoint F))
      → m.raw_sender ≡ some q
      → i.make_tags ≡ ok tags
      → Returns (record_histogram fuel m i v) (IsSent m q (point_of i tags v))
  unfolding record_histogram send_raw
  record_histogram-IsSent law fuel m i tags v q loud t =
      let p = point_of i tags v in
      (
        record m { raw_sender = some (send_raw p q) },
        simp (loud, t, record_histogram),
        record {
          stripes = refl;
          max_buckets = refl;
          initial_error = refl;
          queue = send_raw p q;
          raw_sender = refl;
          sent = elim (Bool-cases (ch.is_closed q)) [
            | inl closed ↦ inr (inl closed, rw (law.try_send-closed _ p q closed, send_raw))
            | inr alive ↦ elim (lt_or_le (length (ch.waiting q)) (ch.capacity q)) [
              | inl room ↦
                  let (r, run, waits, same, still) = law.try_send-room _ p q alive room in
                  inl (
                    alive,
                    room,
                    rw (run, send_raw) waits,
                    rw (run, send_raw) same,
                    rw (run, send_raw) still,
                  )
              | inr full ↦ inr (inr full, rw (law.try_send-full _ p q full, send_raw))
            ]
          ];
        },
      )
    where
      lt_or_le : (a b : ℕ) → (a < b) ⊎ (b ≤ a)
      lt_or_le a b = omega arith
