-- ===== src/Worker/System/Readable.antt =====
-- src/aggregator/striped_map.rs with src/export/statsd.rs: where the texts of the calls can be read
-- back in a datagram, those of the map and of what a flush exports can be, and every count is an
-- `i64`.
use chalk_metrics.Aggregator.{
  TagsData, AggKey, AggSlot, FlushedValue, FlushedMetric, StripedAggMap, Identity, Entry, combined,
  metric_of, record_count, record_gauge,
}
use chalk_metrics.Aggregator.Counts.{count_of}
use chalk_metrics.Aggregator.Drained.{count_in}
use chalk_metrics.Aggregator.Enumeration.{All-get}
use chalk_metrics.Aggregator.Flushing.{
  exported, all_exported, gauge_alone, IsFlushed, flush-IsFlushed,
}
use chalk_metrics.Aggregator.Histograms.{Observed, record_histogram-IsObserved}
use chalk_metrics.Aggregator.History.{
  MapCall, run_call, counts_by, sets, observes, flushes, HasTags, HasRoomForCall,
}
use chalk_metrics.Aggregator.Invariant.{IsMap, IsGoodSlot}
use chalk_metrics.Aggregator.Lookup.{entry_of, HasRoomFor, recorded, IsPut-entry_of}
use chalk_metrics.Aggregator.Recording.{
  with_delta, with_value, first_count, first_gauge, record_count-IsPut, record_gauge-IsPut,
}
use chalk_metrics.Deps.{Channel, HashTable, IsHashTable}
use chalk_metrics.Export.Statsd.Counts.{HasCounts}
use chalk_metrics.Export.Statsd.Reading.{IsPlain, IsTag}
use chalk_metrics.Export.Statsd.Samples.{IsValue, IsExportable}
use chalk_metrics.Float.{Float, IsFloat}
use chalk_metrics.Prelude.{
  ℕ, ◌≤◌, ◌≡◌, refl, sym, ◌∙◌, List, [], ◌∷◌, Option, some, none, inl, inr, Bool-cases,
  if◌then◌else◌, All-append, ◌==◌, nat_eq, ltb, All, Returns, arith, subst, ok,
}
use chalk_metrics.Prelude.Int.{ℤ, pos, IsI64, i64_add-IsI64}
use chalk_metrics.Slots.Gauge.{unset}

-- The texts of a key can be read back.
pub record IsReadableKey (k : AggKey) : Type 0 where
  pub namespace : All IsPlain k.namespace
  pub metric_name : IsPlain k.metric_name.text
  pub tags : All IsTag k.tags_data.pairs

module _ ⦃fl : Float⦄ ⦃ht : HashTable⦄ ⦃ch : Channel⦄ where
  open fl use {F}

  abbrev IsReadableEntry : Entry → Type 0
  IsReadableEntry e = IsReadableKey e.0 × IsI64 (count_of e)

  -- The texts of all entries can be read back, and their counts are `i64`s.
  abbrev pub IsReadableMap : StripedAggMap → Type 0
  IsReadableMap m = (h : ℕ) (e : Entry) → entry_of m h ≡ some e → IsReadableEntry e

  -- The texts of what a call records can be read back.
  abbrev pub IsReadableIdentity : Identity → Type 0
  IsReadableIdentity i =
      (tags : TagsData)
      → i.make_tags ≡ ok tags
      → IsReadableKey
          (record { namespace = i.namespace; metric_name = i.metric_name; tags_data = tags })

  abbrev pub IsReadableCall : MapCall → Type 0
  IsReadableCall (counts_by i delta) = IsReadableIdentity i
  IsReadableCall (sets i value) = IsReadableIdentity i
  IsReadableCall (observes i value) = IsReadableIdentity i
  IsReadableCall flushes = Unit {0}

  abbrev AreReadableAt : Option Entry → Type 0
  AreReadableAt o = (e : Entry) → o ≡ some e → IsReadableEntry e

  IsReadableMap-put :
      (m : StripedAggMap) (c : ℕ) (e : Entry) (r : StripedAggMap)
      → ((h : ℕ) → entry_of r h ≡ (if c == h then some e else entry_of m h))
      → IsReadableMap m
      → IsReadableEntry e
      → IsReadableMap r
  IsReadableMap-put m c e r put kept own h e' there = elim (Bool-cases (c == h)) [
    | inl x ↦
        let at_own : some e ≡ some e' = (rw x at (sym (put h))) ∙ there in
        let same : e ≡ e' = cc in subst IsReadableEntry same own
    | inr x ↦ kept h e' ((rw x at (sym (put h))) ∙ there)
  ]

  count_kept :
      (i : Identity) (tags : TagsData) (d : ℤ) (o : Option Entry)
      → IsReadableKey (first_count i tags d).0
      → AreReadableAt o
      → let e = recorded (with_delta d) (first_count i tags d) o in IsReadableEntry e
  count_kept i tags d none p h = (p, i64_add-IsI64 (pos 0) d)
  count_kept i tags d (some (k, AggSlot.count s)) p h =
      ((h (k, AggSlot.count s) refl).0, i64_add-IsI64 s.value d)
  count_kept i tags d (some (k, AggSlot.gauge s)) p h = h (k, AggSlot.gauge s) refl
  count_kept i tags d (some (k, AggSlot.histogram s)) p h = h (k, AggSlot.histogram s) refl

  gauge_kept :
      (i : Identity) (tags : TagsData) (v : F) (o : Option Entry)
      → IsReadableKey (first_gauge i tags v).0
      → AreReadableAt o
      → let e = recorded (with_value v) (first_gauge i tags v) o in IsReadableEntry e
  gauge_kept i tags v none p h = (p, omega arith)
  gauge_kept i tags v (some (k, AggSlot.count s)) p h = h (k, AggSlot.count s) refl
  gauge_kept i tags v (some (k, AggSlot.gauge s)) p h =
      ((h (k, AggSlot.gauge s) refl).0, omega arith)
  gauge_kept i tags v (some (k, AggSlot.histogram s)) p h = h (k, AggSlot.histogram s) refl

  histogram_kept :
      (i : Identity) (tags : TagsData) (v : F) (o : Option Entry) (e : Entry)
      → IsReadableKey (first_gauge i tags v).0
      → Observed i tags v o e
      → AreReadableAt o
      → IsReadableEntry e
  histogram_kept i tags v none e p (s, s', g, z, o, q) h = rw q (p, omega arith)
  histogram_kept i tags v (some (k, AggSlot.histogram s)) e p (s', o, q) h =
      rw q ((h (k, AggSlot.histogram s) refl).0, omega arith)
  histogram_kept i tags v (some (k, AggSlot.gauge s)) e p q h = rw q (h (k, AggSlot.gauge s) refl)
  histogram_kept i tags v (some (k, AggSlot.count s)) e p q h = rw q (h (k, AggSlot.count s) refl)

  gauge_alone-kept : (o : Option Entry) → AreReadableAt o → AreReadableAt (gauge_alone o)
  gauge_alone-kept none h e there = cc
  gauge_alone-kept (some (k, AggSlot.gauge g)) h e there = h e there
  gauge_alone-kept (some (k, AggSlot.count g)) h e there = cc
  gauge_alone-kept (some (k, AggSlot.histogram g)) h e there = cc

  of_key :
      (k : AggKey) (v : FlushedValue F) → IsReadableKey k → IsValue v → IsExportable (metric_of k v)
  of_key k v t h = record {
    namespace = t.namespace;
    metric_name = t.metric_name;
    tags = t.tags;
    value = h;
  }

  -- The entries alone matter.
  pub IsReadableMap-same :
      (m r : StripedAggMap) → r.stripes ≡ m.stripes → IsReadableMap m → IsReadableMap r
  IsReadableMap-same m r same kept h e there =
      let equal : entry_of r h ≡ entry_of m h = rw (same, entry_of) in kept h e (sym equal ∙ there)

  -- What is exported of an entry can be read back.
  exported-AreReadable :
      (e : Entry)
      → IsGoodSlot e.1
      → IsReadableEntry e
      → All IsExportable (exported e) × HasCounts (exported e)
  exported-AreReadable (k, AggSlot.count s) g (t, i) =
      ((of_key k (FlushedValue.count s.value) t tt, tt), (i, tt))
  exported-AreReadable (k, AggSlot.gauge s) g (t, i) = elim (Bool-cases (s.bits == unset)) [
    | inl x ↦ rw x (tt, tt)
    | inr x ↦
        rw x ((of_key k (FlushedValue.gauge (fl.from_bits s.bits)) t tt, tt), (omega arith, tt))
  ]
  exported-AreReadable (k, AggSlot.histogram s) (l, g) (t, i) =
      elim (Bool-cases (ltb 0 s.sketch.num_values)) [
        | inl x ↦
            rw x
              ((of_key k (FlushedValue.histogram s.sketch) t (l, g.sketch), tt), (omega arith, tt))
        | inr x ↦ rw x (tt, tt)
      ]

  all_exported-AreReadable :
      (l : List (ℕ × Entry))
      → All (λ (e : ℕ × Entry). IsGoodSlot e.1.1 × IsReadableEntry e.1) l
      → All IsExportable (all_exported l) × HasCounts (all_exported l)
  all_exported-AreReadable [] g = (tt, tt)
  all_exported-AreReadable ((h, e) ∷ l) (g, gs) =
      let (a, b) = exported-AreReadable e g.0 g.1 in
      let (rest, counts) = all_exported-AreReadable l gs in
      (
        All-append IsExportable (exported e) (all_exported l) a rest,
        All-append (λ (m : FlushedMetric F). IsI64 (count_in m.value)) (exported e) (all_exported l)
            b counts,
      )

  module _ (lawful : IsHashTable ht) where
    -- A flush exports metrics that can be read back.
    pub IsFlushed-AreReadable :
        (m : StripedAggMap) (metrics : List (FlushedMetric F)) (r : StripedAggMap)
        → IsMap m
        → IsReadableMap m
        → IsFlushed lawful m metrics r
        → (All IsExportable metrics × HasCounts metrics) × IsReadableMap r
    IsFlushed-AreReadable m metrics r inv kept fd = (
      subst (λ x. All IsExportable x × HasCounts x) (sym fd.exports)
          (all_exported-AreReadable fd.entries (
            All-get (λ x. IsGoodSlot x.1 × IsReadableEntry x) fd.entries fd.enumerates.distinct
              λ h e there.
                let here : entry_of m h ≡ some e = sym (fd.enumerates.lookup h) ∙ there in
                (inv.good h e.0 e.1 here, kept h e here))),
      λ h e there. gauge_alone-kept (entry_of m h) (kept h) e (sym (fd.entry_of_lem h) ∙ there),
    )

    pub record_count-IsReadableMap :
        (m : StripedAggMap) (i : Identity) (tags : TagsData) (delta : ℤ)
        → IsMap m
        → i.make_tags ≡ ok tags
        → HasRoomFor m (combined i)
        → IsReadableMap m
        → IsReadableIdentity i
        → Returns (record_count m i delta) IsReadableMap
    record_count-IsReadableMap m i tags delta inv t room kept own =
        let (r, run, p) = record_count-IsPut lawful m i tags t inv.striped inv.tables room delta in
        let e = recorded (with_delta delta) (first_count i tags delta) (entry_of m (combined i)) in
        (
          r,
          run,
          IsReadableMap-put m (combined i) e r (IsPut-entry_of m (combined i) e r p) kept
              (count_kept i tags delta (entry_of m (combined i)) (own tags t) (kept (combined i))),
        )

    pub record_gauge-IsReadableMap :
        (m : StripedAggMap) (i : Identity) (tags : TagsData) (value : F)
        → IsMap m
        → i.make_tags ≡ ok tags
        → HasRoomFor m (combined i)
        → IsReadableMap m
        → IsReadableIdentity i
        → Returns (record_gauge m i value) IsReadableMap
    record_gauge-IsReadableMap m i tags value inv t room kept own =
        let (r, run, p) = record_gauge-IsPut lawful m i tags t inv.striped inv.tables room value in
        let e = recorded (with_value value) (first_gauge i tags value) (entry_of m (combined i)) in
        (
          r,
          run,
          IsReadableMap-put m (combined i) e r (IsPut-entry_of m (combined i) e r p) kept
              (gauge_kept i tags value (entry_of m (combined i)) (own tags t) (kept (combined i))),
        )

    -- A recording with texts that can be read back leaves such a map.
    pub run_call-IsReadableMap :
        (law : IsFloat fl) (fuel : ℕ) (m : StripedAggMap) (c : MapCall)
        → 65 ≤ fuel
        → IsMap m
        → m.raw_sender ≡ none
        → HasTags c
        → HasRoomForCall m c
        → IsReadableMap m
        → IsReadableCall c
        → Returns (run_call fuel m c) (λ r. IsReadableMap r.1)
    unfolding run_call
    run_call-IsReadableMap law fuel m (counts_by i delta) f inv quiet (tags, t) room kept own =
        let (r, run, h) = record_count-IsReadableMap m i tags delta inv t room kept own in
        (([], r), rw run, h)
    run_call-IsReadableMap law fuel m (sets i value) f inv quiet (tags, t) room kept own =
        let (r, run, h) = record_gauge-IsReadableMap m i tags value inv t room kept own in
        (([], r), rw run, h)
    run_call-IsReadableMap law fuel m (observes i value) f inv quiet (tags, t) room kept own =
        let (r, run, o) =
          record_histogram-IsObserved law lawful fuel m i tags value f inv t room quiet in
        (
          ([], r),
          rw run,
          IsReadableMap-put m (combined i) o.entry r o.entry_of_lem kept (
              histogram_kept i tags value (entry_of m (combined i)) o.entry (own tags t) o.effect
                (kept (combined i))),
        )
    run_call-IsReadableMap law fuel m flushes f inv quiet t room kept own =
        let ((metrics, r), run, fd) = flush-IsFlushed lawful m inv in
        ((metrics, r), run, (IsFlushed-AreReadable m metrics r inv kept fd).1)
