-- ===== src/Aggregator/Flushing.antt =====
-- src/aggregator/striped_map.rs: `flush`.
use Prim.Native.Nat.{zero}
use chalk_metrics.Aggregator.{
  AggKey, AggSlot, FlushedValue, FlushedMetric, StripedAggMap, Entry, stripe_index, at, metric_of,
  flush_slot, kept, flush_entries, flush_stripes, flush,
}
use chalk_metrics.Aggregator.Enumeration.{
  AreConsistent, All-get, kept_by, get-keep, all_entries, get-all_entries, all_entries-AreDistinct,
  Enumerates,
}
use chalk_metrics.Aggregator.Invariant.{IsGoodSlot, ArePlaced, IsMap}
use chalk_metrics.Aggregator.Lookup.{entry_of}
use chalk_metrics.Deps.{Channel, HashTable, IsHashTable, IsConsistent}
use chalk_metrics.Float.{Float}
use chalk_metrics.Prelude.{
  ℕ, suc, ◌≡◌, refl, sym, ap, ◌∙◌, List, [], ◌∷◌, ◌++◌, map, Option, some, none, if◌then◌else◌,
  ◌==◌, nat_eq, ltb, length, append_assoc, arith, All, All-split, ok, Returns, subst,
}
use chalk_metrics.Prelude.HashMap.{get}
use chalk_metrics.Slots.Count.{flush_count}
use chalk_metrics.Slots.Gauge.{flush_gauge, unset}
use chalk_metrics.Slots.Histogram.Values.{flush_histogram-IsHistogram}

module _ ⦃fl : Float⦄ ⦃ht : HashTable⦄ ⦃ch : Channel⦄ where
  open fl use {F}

  -- What is exported of an entry: a count always, a gauge that is set, a histogram with values.
  abbrev pub exported : Entry → List (FlushedMetric F)
  exported (k, AggSlot.count s) = metric_of k (FlushedValue.count s.value) ∷ []
  exported (k, AggSlot.gauge s) =
      if s.bits == unset then [] else metric_of k (FlushedValue.gauge (fl.from_bits s.bits)) ∷ []
  exported (k, AggSlot.histogram s) =
      if ltb 0 s.sketch.num_values then metric_of k (FlushedValue.histogram s.sketch) ∷ [] else []

  abbrev pub all_exported : List (ℕ × Entry) → List (FlushedMetric F)
  all_exported [] = []
  all_exported ((h, e) ∷ l) = exported e ++ all_exported l

  -- What a flush leaves: the gauges.
  abbrev pub gauge_alone : Option Entry → Option Entry
  gauge_alone none = none
  gauge_alone (some (k, AggSlot.gauge s)) = some (k, AggSlot.gauge s)
  gauge_alone (some (k, AggSlot.count s)) = none
  gauge_alone (some (k, AggSlot.histogram s)) = none

  all_exported-append :
      (l m : List (ℕ × Entry)) → all_exported (l ++ m) ≡ all_exported l ++ all_exported m
  all_exported-append [] m = refl
  all_exported-append ((h, e) ∷ l) m =
      ap (λ x. exported e ++ x) (all_exported-append l m)
      ∙ sym (append_assoc (exported e) (all_exported l) (all_exported m))

  flush_slot-exported : (e : Entry) → IsGoodSlot e.1 → flush_slot e ≡ ok (exported e)
  unfolding flush_slot flush_count flush_gauge
  flush_slot-exported (k, AggSlot.count s) g = refl
  flush_slot-exported (k, AggSlot.gauge s) g = ground arith
  flush_slot-exported (k, AggSlot.histogram s) (l, g) =
      let (r, run, (same, _, _)) = flush_histogram-IsHistogram s l g in
      rw run (
        ap
          (λ t. ok (if ltb 0 t.num_values then metric_of k (FlushedValue.histogram t) ∷ [] else []))
          same)

  -- Of every entry in the list the slot is a good one.
  abbrev AreGood : List (ℕ × Entry) → Type 0
  AreGood l = All (λ (e : ℕ × Entry). IsGoodSlot e.1.1) l

  flush_entries-exported :
      (l : List (ℕ × Entry)) → AreGood l → flush_entries l ≡ ok (all_exported l)
  unfolding flush_entries
  flush_entries-exported [] g = refl
  flush_entries-exported ((h, e) ∷ l) g =
      rw (flush_slot-exported e g.0) (rw (flush_entries-exported l g.1))

  flush_stripes-exported :
      (ts : List (ht.Table Entry))
      → AreGood (all_entries ts)
      → flush_stripes ts ≡ ok (all_exported (all_entries ts), map (ht.retain kept) ts)
  unfolding flush_stripes
  flush_stripes-exported [] g = refl
  flush_stripes-exported (t ∷ ts) g =
      let (a, b) =
        All-split (λ (e : ℕ × Entry). IsGoodSlot e.1.1) (ht.entries t) (all_entries ts) g in
      rw (flush_entries-exported (ht.entries t) a) (
        rw (flush_stripes-exported ts b) (rw (all_exported-append (ht.entries t) (all_entries ts))))

  kept-gauge_alone : (o : Option Entry) → kept_by kept o ≡ gauge_alone o
  unfolding kept
  kept-gauge_alone none = refl
  kept-gauge_alone (some (k, AggSlot.gauge s)) = refl
  kept-gauge_alone (some (k, AggSlot.count s)) = refl
  kept-gauge_alone (some (k, AggSlot.histogram s)) = refl

  gauge_alone-good :
      (o : Option Entry) (k : AggKey) (s : AggSlot F) → gauge_alone o ≡ some (k, s) → IsGoodSlot s
  gauge_alone-good none k s e = cc
  gauge_alone-good (some (k', AggSlot.gauge g)) k s e =
      let same : AggSlot.gauge g ≡ s = cc in subst IsGoodSlot same tt
  gauge_alone-good (some (k', AggSlot.count c)) k s e = cc
  gauge_alone-good (some (k', AggSlot.histogram h)) k s e = cc

  module _ (law : IsHashTable ht) where
    find-retain :
        (h : ℕ) (t : ht.Table Entry)
        → IsConsistent ht t
        → ht.find h (ht.retain kept t) ≡ gauge_alone (ht.find h t)
    find-retain h t a =
        (law.retain-IsConsistent Entry kept t a).0 h
        ∙ ap (get h) (law.entries-retain Entry kept t)
        ∙ get-keep kept h (ht.entries t) a.1
        ∙ ap (kept_by kept) (sym (a.0 h))
        ∙ kept-gauge_alone (ht.find h t)

    find-retain_at :
        (ts : List (ht.Table Entry)) (i h : ℕ)
        → AreConsistent ts
        → (elim (at (map (ht.retain kept) ts) i) [ none ↦ none | some t ↦ ht.find h t ])
          ≡ gauge_alone (elim (at ts i) [ none ↦ none | some t ↦ ht.find h t ])
    find-retain_at [] i h a = refl
    find-retain_at (t ∷ ts) zero h a = find-retain h t a.0
    find-retain_at (t ∷ ts) (suc i) h a = find-retain_at ts i h a.1

    AreConsistent-retain :
        (ts : List (ht.Table Entry)) → AreConsistent ts → AreConsistent (map (ht.retain kept) ts)
    AreConsistent-retain [] a = tt
    AreConsistent-retain (t ∷ ts) a =
        (law.retain-IsConsistent Entry kept t a.0, AreConsistent-retain ts a.1)

    ArePlaced-retain :
        (j : ℕ) (ts : List (ht.Table Entry))
        → AreConsistent ts
        → ArePlaced j ts
        → ArePlaced j (map (ht.retain kept) ts)
    ArePlaced-retain j [] a p = tt
    ArePlaced-retain j (t ∷ ts) a p = (
      λ h other. find-retain h t a.0 ∙ ap gauge_alone (p.0 h other),
      ArePlaced-retain (suc j) ts a.1 p.1,
    )

    pub all_entries-Enumerates :
        (m : StripedAggMap) → IsMap m → Enumerates law m (all_entries m.stripes)
    all_entries-Enumerates m inv = record {
      distinct = all_entries-AreDistinct law 0 m.stripes inv.tables inv.placed;
      lookup = λ h.
          get-all_entries law 0 (stripe_index h) h m.stripes inv.tables inv.placed (omega arith);
    }

    -- The map behind a flush, with what it exports.
    pub record IsFlushed (m : StripedAggMap) (metrics : List (FlushedMetric F)) (r : StripedAggMap)
        : Type 0 where
      pub in_order : IsMap r
      pub entries : List (ℕ × Entry)
      pub enumerates : Enumerates law m entries
      pub exports : metrics ≡ all_exported entries
      pub entry_of_lem : (h : ℕ) → entry_of r h ≡ gauge_alone (entry_of m h)
      pub raw_sender : r.raw_sender ≡ m.raw_sender

    -- Over a lawful hash table, a flush of a map in order returns a map in order again: of every
    -- entry, once each, it exports a count, a gauge that is set, and a histogram that has values;
    -- it leaves the gauges as they were and nothing else, and the sender of raw points.
    pub flush-IsFlushed :
        (m : StripedAggMap) → IsMap m → Returns (flush m) (λ r. IsFlushed m r.0 r.1)
    unfolding flush
    flush-IsFlushed m inv =
        let e = all_entries-Enumerates m inv in
        let good : AreGood (all_entries m.stripes) =
          All-get (λ x. IsGoodSlot x.1) (all_entries m.stripes) e.distinct
            λ h (k, s) there. inv.good h k s (sym (e.lookup h) ∙ there) in
        let r : StripedAggMap = record m { stripes = map (ht.retain kept) m.stripes } in
        let left : (h : ℕ) → entry_of r h ≡ gauge_alone (entry_of m h) =
          λ h. find-retain_at m.stripes (stripe_index h) h inv.tables in
        (
          (all_exported (all_entries m.stripes), r),
          rw (flush_stripes-exported m.stripes good),
          record {
            in_order = record {
              tables = AreConsistent-retain m.stripes inv.tables;
              striped = length-map m.stripes ∙ inv.striped;
              placed = ArePlaced-retain 0 m.stripes inv.tables inv.placed;
              good = λ h k s there. gauge_alone-good (entry_of m h) k s (sym (left h) ∙ there);
              settings = inv.settings;
            };
            entries = all_entries m.stripes;
            enumerates = e;
            exports = refl;
            entry_of_lem = left;
            raw_sender = refl;
          },
        )
      where
        length-map : (ts : List (ht.Table Entry)) → length (map (ht.retain kept) ts) ≡ length ts
        length-map [] = refl
        length-map (t ∷ ts) = ap suc (length-map ts)
