-- ===== src/Client.antt =====
-- src/client.rs: the builder, the global client, and the recording functions.
pub mod Lifecycle
use chalk_metrics.Aggregator.{
  StripedAggMap, Identity, RawDistributionPoint, new_map, record_count, record_gauge,
  record_histogram, FlushedMetric,
}
use chalk_metrics.Aggregator
use chalk_metrics.Deps.{Channel, HashTable}
use chalk_metrics.Float.{Float}
use chalk_metrics.Prelude.{
  ℕ, suc, ◌+◌, Bool, true, false, List, [], ◌∷◌, ◌++◌, Option, none, some, if◌then◌else◌, leb,
  Outcome, ok, panic, ◌>>=◌,
}
use chalk_metrics.Prelude.Int.{ℤ}
use chalk_metrics.Prelude.Text.{Str, codes}
use chalk_metrics.Worker.{Exporter}

abbrev pub raw_point_channel_capacity : ℕ
raw_point_channel_capacity = 16384

-- The flush interval is in milliseconds.
pub record MetricsClientBuilder (F : Type 0) : Type 0 where
  pub exporters : List (Exporter F)
  pub flush_interval : ℕ
  pub worker_threads : ℕ
  pub max_buckets : ℕ
  pub initial_error : F
  pub aggregate_distr_metrics : Bool

module _ {F : Type 0} where
  -- `MetricsClientBuilder::new`; 0.001 is given.
  unfoldable pub new_builder : F → MetricsClientBuilder F
  new_builder thousandth = record {
    exporters = [];
    flush_interval = 10000;
    worker_threads = 1;
    max_buckets = 200;
    initial_error = thousandth;
    aggregate_distr_metrics = true;
  }

  -- `builder()`
  unfoldable pub builder : F → MetricsClientBuilder F
  unfolding new_builder
  builder thousandth = new_builder thousandth

  unfoldable pub with_exporter : MetricsClientBuilder F → Exporter F → MetricsClientBuilder F
  with_exporter b e = record b { exporters = b.exporters ++ e ∷ [] }

  unfoldable pub flush_interval : MetricsClientBuilder F → ℕ → MetricsClientBuilder F
  flush_interval b interval = record b { flush_interval = interval }

  -- `n.max(1)`
  unfoldable pub worker_threads : MetricsClientBuilder F → ℕ → MetricsClientBuilder F
  worker_threads b n = record b { worker_threads = if leb 1 n then n else 1 }

  unfoldable pub max_buckets : MetricsClientBuilder F → ℕ → MetricsClientBuilder F
  max_buckets b n = record b { max_buckets = n }

  unfoldable pub initial_error : MetricsClientBuilder F → F → MetricsClientBuilder F
  initial_error b e = record b { initial_error = e }

  unfoldable pub aggregate_distr_metrics : MetricsClientBuilder F → Bool → MetricsClientBuilder F
  aggregate_distr_metrics b enabled = record b { aggregate_distr_metrics = enabled }

pub data AlreadyInitialized : Type 0 where
  already_initialized : AlreadyInitialized

-- Its `Display`.
unfoldable pub display_error : AlreadyInitialized → Str
display_error already_initialized = codes "chalk-metrics client already initialized"

module _ ⦃fl : Float⦄ ⦃ht : HashTable⦄ ⦃ch : Channel⦄ where
  open fl use {F}

  -- A client with the number of its worker thread; the handle is there until it is joined.
  pub record MetricsClient : Type 0 where
    pub aggregator : StripedAggMap
    pub worker : ℕ
    pub worker_handle : Bool

  -- A worker thread as it was spawned, and whether it has been told to shut down.
  pub record Thread : Type 0 where
    pub exporters : List (Exporter F)
    pub flush_interval : ℕ
    pub threads : ℕ
    pub notified : Bool

  -- `GLOBAL`, `SHUTDOWN_CALLED`, the `atexit` handlers, and the threads that were ever spawned.
  pub record Process : Type 0 where
    pub global : Option MetricsClient
    pub shutdown_called : Bool
    pub handlers : ℕ
    pub spawned : List Thread

  unfoldable pub raw_channel : Bool → Option (ch.Queue (RawDistributionPoint F))
  raw_channel true = none
  raw_channel false = some (ch.channel raw_point_channel_capacity)

  unfoldable pub length_of {ℓ} : {A : Type ℓ} → List A → ℕ
  length_of [] = 0
  length_of (x ∷ l) = suc (length_of l)

  -- The client, and the process with its worker spawned.
  unfoldable pub build_inner : MetricsClientBuilder F → Process → MetricsClient × Process
  unfolding length_of
  build_inner b p = (
    record {
      aggregator = new_map b.max_buckets b.initial_error (raw_channel b.aggregate_distr_metrics);
      worker = length_of p.spawned;
      worker_handle = true;
    },
    record p {
      spawned =
          p.spawned
          ++ record {
            exporters = b.exporters;
            flush_interval = b.flush_interval;
            threads = b.worker_threads;
            notified = false;
          }
            ∷ [];
    },
  )

  -- `build_local`: the client stays out of `GLOBAL`.
  unfoldable pub build_local : MetricsClientBuilder F → Process → MetricsClient × Process
  unfolding build_inner
  build_local b p = build_inner b p

  -- `GLOBAL.set(client)`, and the handler on success.
  set_global : MetricsClient → Process → Option AlreadyInitialized × Process
  set_global client p = elim p.global [
    | some other ↦ (some already_initialized, p)
    | none ↦ (none, record p { global = some client; handlers = p.handlers + 1 })
  ]

  unfoldable pub try_init : MetricsClientBuilder F → Process → Option AlreadyInitialized × Process
  unfolding set_global
  try_init b p = let (client, p') = build_inner b p in set_global client p'

  -- `expect`
  unfoldable pub init : MetricsClientBuilder F → Process → Outcome Process
  init b p = let (error, p') = try_init b p in elim error [ none ↦ ok p' | some e ↦ panic ]

  unfoldable pub notify_nth : ℕ → List Thread → List Thread
  notify_nth n [] = []
  notify_nth Prim.Native.Nat.ℕ.zero (t ∷ ts) = record t { notified = true } ∷ ts
  notify_nth (suc n) (t ∷ ts) = t ∷ notify_nth n ts

  -- `notify_one` and the join: the handle is taken once.
  unfoldable pub shutdown_client : MetricsClient → Process → MetricsClient × Process
  unfolding notify_nth
  shutdown_client c p =
      (record c { worker_handle = false }, record p { spawned = notify_nth c.worker p.spawned })

  shutdown_global : Option MetricsClient → Process → Process
  shutdown_global none p = p
  shutdown_global (some c) p = let (c', p') = shutdown_client c p in record p' { global = some c' }

  -- `compare_exchange(false, true)` succeeds once in a process.
  unfoldable pub shutdown : Process → Process
  unfolding shutdown_global
  shutdown p =
      if p.shutdown_called
      then p
      else shutdown_global p.global (record p { shutdown_called = true })

  -- What the process runs at its exit, where it was registered.
  unfoldable pub atexit_handler : Process → Process
  unfolding shutdown
  atexit_handler p = shutdown p

  -- The recording functions do nothing before `init`.
  unfoldable pub with_global : (StripedAggMap → Outcome StripedAggMap) → Process → Outcome Process
  with_global f p = elim p.global [
    | none ↦ ok p
    | some c ↦ do
      aggregator ← f c.aggregator
      ok (record p { global = some (record c { aggregator = aggregator }) })
  ]

  unfoldable pub record_count_global : Process → Identity → ℤ → Outcome Process
  record_count_global p i delta = with_global (λ m. record_count m i delta) p

  unfoldable pub record_gauge_global : Process → Identity → F → Outcome Process
  record_gauge_global p i value = with_global (λ m. record_gauge m i value) p

  unfoldable pub record_histogram_global : ℕ → Process → Identity → F → Outcome Process
  record_histogram_global fuel p i value = with_global (λ m. record_histogram fuel m i value) p

  -- `MetricsClient::flush`
  unfoldable pub flush_client : MetricsClient → Outcome (List (FlushedMetric F) × MetricsClient)
  flush_client c = do
    (metrics, aggregator) ← Aggregator.flush c.aggregator
    ok (metrics, record c { aggregator = aggregator })

  -- The recording methods of a client.
  unfoldable pub on_client :
      (StripedAggMap → Outcome StripedAggMap) → MetricsClient → Outcome MetricsClient
  on_client f c = do aggregator ← f c.aggregator; ok (record c { aggregator = aggregator })

  unfoldable pub local_record_count : MetricsClient → Identity → ℤ → Outcome MetricsClient
  local_record_count c i delta = on_client (λ m. record_count m i delta) c

  unfoldable pub local_record_gauge : MetricsClient → Identity → F → Outcome MetricsClient
  local_record_gauge c i value = on_client (λ m. record_gauge m i value) c

  unfoldable pub local_record_histogram : ℕ → MetricsClient → Identity → F → Outcome MetricsClient
  local_record_histogram fuel c i value = on_client (λ m. record_histogram fuel m i value) c
