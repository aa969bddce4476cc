-- ===== src/Aggregator.antt =====
-- src/aggregator/striped_map.rs: `StripedAggMap`, 64 locked hash maps of slots. A lock makes each
-- visit of a stripe one step. The keys are the combined hashes.
pub mod Tables
pub mod Lookup
pub mod Recording
pub mod Invariant
pub mod Histograms
pub mod Enumeration
pub mod Flushing
pub mod Counts
pub mod Drained
pub mod History
pub mod Collisions
use Prim.Native.Nat.{zero}
use chalk_metrics.Deps.{HashTable, Channel}
use chalk_metrics.Float.{Float}
use chalk_metrics.Prelude.{
  ℕ, suc, ◌+◌, ◌*◌, ◌%◌, ◌^◌, List, [], ◌∷◌, ◌++◌, Option, some, none, replicate, ltb,
  if◌then◌else◌, Outcome, ok, ◌>>=◌, expect,
}
use chalk_metrics.Prelude.Int.{ℤ}
use chalk_metrics.Prelude.Text.{Str}
use chalk_metrics.Sketch.Udd.{UddSketch}
use chalk_metrics.Slots.Count.{CountSlot, new_count, record_count_slot, flush_count}
use chalk_metrics.Slots.Gauge.{GaugeSlot, new_gauge, record_gauge_slot, flush_gauge}
use chalk_metrics.Slots.Histogram.{
  HistogramSlot, new_histogram, record_histogram_slot, flush_histogram,
}

abbrev pub stripe_count : ℕ
stripe_count = 64

-- A `&'static str`: its bytes and its address.
pub record StaticStr : Type 0 where
  pub text : Str
  pub address : ℕ

pub record TagsData : Type 0 where
  pub pairs : List (Str × Str)

pub record AggKey : Type 0 where
  pub namespace : List Str
  pub metric_name : StaticStr
  pub tags_data : TagsData

pub data AggSlot (F : Type 0) : Type 0 where
  count : CountSlot → AggSlot F
  gauge : GaugeSlot → AggSlot F
  histogram : HistogramSlot F → AggSlot F

-- src/export/mod.rs
pub data FlushedValue (F : Type 0) : Type 0 where
  count : ℤ → FlushedValue F
  gauge : F → FlushedValue F
  histogram : UddSketch F → FlushedValue F

pub record FlushedMetric (F : Type 0) : Type 0 where
  pub namespace : List Str
  pub metric_name : StaticStr
  pub tags : TagsData
  pub value : FlushedValue F

pub record RawDistributionPoint (F : Type 0) : Type 0 where
  pub namespace : List Str
  pub metric_name : StaticStr
  pub tags : TagsData
  pub value : F

unfoldable pub combine_hash : StaticStr → ℕ → ℕ
combine_hash metric_name tags_hash =
    (tags_hash * 6364136223846793005 % 2 ^ 64 + metric_name.address) % 2 ^ 64

-- `combined as usize & STRIPE_MASK`
unfoldable pub stripe_index : ℕ → ℕ
stripe_index combined = combined % 64

abbrev pub at {ℓ} : {A : Type ℓ} → List A → ℕ → Option A
at [] i = none
at (x ∷ xs) zero = some x
at (x ∷ xs) (suc i) = at xs i

abbrev pub set_at {ℓ} : {A : Type ℓ} → List A → ℕ → A → List A
set_at [] i v = []
set_at (x ∷ xs) zero v = v ∷ xs
set_at (x ∷ xs) (suc i) v = x ∷ set_at xs i v

module _ ⦃fl : Float⦄ ⦃ht : HashTable⦄ ⦃ch : Channel⦄ where
  open fl use {F}

  abbrev pub Entry : Type 0
  Entry = AggKey × AggSlot F

  pub record StripedAggMap : Type 0 where
    pub stripes : List (ht.Table Entry)
    pub max_buckets : ℕ
    pub initial_error : F
    pub raw_sender : Option (ch.Queue (RawDistributionPoint F))

  unfoldable pub new_map : ℕ → F → Option (ch.Queue (RawDistributionPoint F)) → StripedAggMap
  new_map max_buckets initial_error raw_sender = record {
    stripes = replicate stripe_count ht.empty;
    max_buckets = max_buckets;
    initial_error = initial_error;
    raw_sender = raw_sender;
  }

  -- Which metric is recorded: `metric_name`, `namespace`, `tags_hash` and the closure `make_tags`.
  pub record Identity : Type 0 where
    pub metric_name : StaticStr
    pub namespace : List Str
    pub tags_hash : ℕ
    pub make_tags : Outcome TagsData

  abbrev pub combined : Identity → ℕ
  combined i = combine_hash i.metric_name i.tags_hash

  -- The body that the three recording functions share: lock the stripe of the key, and change the
  -- slot that is there, or insert a new one under the key.
  unfoldable pub record_in :
      Identity
      → (AggSlot F → Outcome (AggSlot F))
      → Outcome (AggSlot F)
      → ht.Table Entry
      → Outcome (ht.Table Entry)
  record_in i occupied vacant guard = elim (ht.find (combined i) guard) [
    | some (k, slot) ↦ do slot' ← occupied slot; ok (ht.modify (combined i) (k, slot') guard)
    | none ↦ do
      slot ← vacant
      tags ← i.make_tags
      let agg_key : AggKey = record {
        namespace = i.namespace;
        metric_name = i.metric_name;
        tags_data = tags;
      }
      ok (ht.insert (combined i) (agg_key, slot) guard)
  ]

  unfoldable pub in_stripe :
      StripedAggMap → ℕ → (ht.Table Entry → Outcome (ht.Table Entry)) → Outcome StripedAggMap
  in_stripe m idx f = do
    guard ← expect (at m.stripes idx)
    guard' ← f guard
    ok (record m { stripes = set_at m.stripes idx guard' })

  -- A slot of another kind is left as it is.
  unfoldable pub count_occupied : ℤ → AggSlot F → Outcome (AggSlot F)
  count_occupied delta (AggSlot.count s) = ok (AggSlot.count (record_count_slot s delta))
  count_occupied delta (AggSlot.gauge s) = ok (AggSlot.gauge s)
  count_occupied delta (AggSlot.histogram s) = ok (AggSlot.histogram s)

  unfoldable pub gauge_occupied : F → AggSlot F → Outcome (AggSlot F)
  gauge_occupied value (AggSlot.gauge s) = ok (AggSlot.gauge (record_gauge_slot s value))
  gauge_occupied value (AggSlot.count s) = ok (AggSlot.count s)
  gauge_occupied value (AggSlot.histogram s) = ok (AggSlot.histogram s)

  unfoldable pub histogram_occupied : ℕ → F → AggSlot F → Outcome (AggSlot F)
  histogram_occupied fuel value (AggSlot.histogram s) = do
    s' ← record_histogram_slot fuel s value
    ok (AggSlot.histogram s')
  histogram_occupied fuel value (AggSlot.count s) = ok (AggSlot.count s)
  histogram_occupied fuel value (AggSlot.gauge s) = ok (AggSlot.gauge s)

  unfoldable pub record_count : StripedAggMap → Identity → ℤ → Outcome StripedAggMap
  record_count m i delta =
      in_stripe m (stripe_index (combined i)) (
        record_in i (count_occupied delta) (ok (AggSlot.count (record_count_slot new_count delta))))

  unfoldable pub record_gauge : StripedAggMap → Identity → F → Outcome StripedAggMap
  record_gauge m i value =
      in_stripe m (stripe_index (combined i)) (
        record_in i (gauge_occupied value) (ok (AggSlot.gauge (record_gauge_slot new_gauge value))))

  histogram_vacant : ℕ → StripedAggMap → F → Outcome (AggSlot F)
  histogram_vacant fuel m value = do
    s ← new_histogram m.max_buckets m.initial_error
    s' ← record_histogram_slot fuel s value
    ok (AggSlot.histogram s')

  -- `let _ = sender.try_send(..)`: a point that the channel refuses is dropped.
  unfoldable pub send_raw :
      RawDistributionPoint F → ch.Queue (RawDistributionPoint F) → ch.Queue (RawDistributionPoint F)
  send_raw p q = elim (ch.try_send p q) [ none ↦ q | some q' ↦ q' ]

  unfoldable pub record_histogram : ℕ → StripedAggMap → Identity → F → Outcome StripedAggMap
  unfolding histogram_vacant
  record_histogram fuel m i value = elim m.raw_sender [
    | some sender ↦ do
      tags ← i.make_tags
      let point : RawDistributionPoint F = record {
        namespace = i.namespace;
        metric_name = i.metric_name;
        tags = tags;
        value = value;
      }
      ok (record m { raw_sender = some (send_raw point sender) })
    | none ↦
        in_stripe m (stripe_index (combined i))
          (record_in i (histogram_occupied fuel value) (histogram_vacant fuel m value))
  ]

  abbrev pub metric_of : AggKey → FlushedValue F → FlushedMetric F
  metric_of k value = record {
    namespace = k.namespace;
    metric_name = k.metric_name;
    tags = k.tags_data;
    value = value;
  }

  -- What `retain`'s closure pushes for an entry.
  unfoldable pub flush_slot : Entry → Outcome (List (FlushedMetric F))
  flush_slot (k, AggSlot.count s) = ok (metric_of k (FlushedValue.count (flush_count s).0) ∷ [])
  flush_slot (k, AggSlot.gauge s) = elim (flush_gauge s) [
    | some value ↦ ok (metric_of k (FlushedValue.gauge value) ∷ [])
    | none ↦ ok []
  ]
  flush_slot (k, AggSlot.histogram s) = do
    (sketch, _) ← flush_histogram s
    ok (if ltb 0 sketch.num_values then metric_of k (FlushedValue.histogram sketch) ∷ [] else [])

  -- What the closure leaves of an entry: gauges alone stay.
  unfoldable pub kept : Entry → Option Entry
  kept (k, AggSlot.count s) = none
  kept (k, AggSlot.gauge s) = some (k, AggSlot.gauge s)
  kept (k, AggSlot.histogram s) = none

  unfoldable pub flush_entries : List (ℕ × Entry) → Outcome (List (FlushedMetric F))
  flush_entries [] = ok []
  flush_entries ((h, e) ∷ l) = do pushed ← flush_slot e; rest ← flush_entries l; ok (pushed ++ rest)

  unfoldable pub flush_stripes :
      List (ht.Table Entry) → Outcome (List (FlushedMetric F) × List (ht.Table Entry))
  flush_stripes [] = ok ([], [])
  flush_stripes (t ∷ ts) = do
    pushed ← flush_entries (ht.entries t)
    (rest, ts') ← flush_stripes ts
    ok (pushed ++ rest, ht.retain kept t ∷ ts')

  unfoldable pub flush : StripedAggMap → Outcome (List (FlushedMetric F) × StripedAggMap)
  flush m = do
    (metrics, stripes) ← flush_stripes m.stripes
    ok (metrics, record m { stripes = stripes })
