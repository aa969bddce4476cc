-- ===== src/Worker.antt =====
-- src/worker.rs: the flush worker. The timer and the shutdown notification arrive as a list of
-- events; an exporter is its answers to the calls that it has had.
pub mod Delivery
pub mod System
use Prim.Native.Nat.{zero}
use chalk_metrics.Aggregator.{StripedAggMap, FlushedMetric, RawDistributionPoint, flush}
use chalk_metrics.Deps.{Channel, HashTable}
use chalk_metrics.Float.{Float}
use chalk_metrics.Prelude.{
  ℕ, suc, Bool, true, false, List, [], ◌∷◌, ◌++◌, map, Option, none, some, length, leb,
  if◌then◌else◌, Outcome, ok, out_of_fuel, ◌>>=◌,
}
use chalk_metrics.Prelude.Text.{Str}

pub data Call (F : Type 0) : Type 0 where
  export : List (FlushedMetric F) → Call F
  export_raw_points : List (RawDistributionPoint F) → Call F

-- The runtime of the worker's thread, by the number of its threads.
pub data Runtime : Type 0 where
  current_thread : Runtime
  multi_thread : (worker_threads : ℕ) → Runtime

unfoldable pub runtime_of : ℕ → Runtime
runtime_of worker_threads =
    if leb worker_threads 1 then current_thread else multi_thread worker_threads

-- The calls that an exporter has had, the latest last, and its answer to one more: an error
-- message, or none.
pub record Exporter (F : Type 0) : Type 0 where
  pub calls : List (Call F)
  pub answer : List (Call F) → Call F → Option Str

unfoldable pub invoke : {F : Type 0} → Call F → Exporter F → Option Str × Exporter F
invoke c e = (e.answer e.calls c, record e { calls = e.calls ++ c ∷ [] })

-- An error is printed on the standard error stream, and the next exporter is called.
unfoldable pub export_each :
    {F : Type 0} → Call F → List (Exporter F) → List Str → List (Exporter F) × List Str
export_each c [] log = ([], log)
export_each c (e ∷ es) log =
    let (error, e') = invoke c e in
    let log' : List Str = elim error [ none ↦ log | some message ↦ log ++ message ∷ [] ] in
    let (es', log'') = export_each c es log' in (e' ∷ es', log'')

pub data Event : Type 0 where
  tick : Event
  shutdown : Event

abbrev is_empty {ℓ} : {A : Type ℓ} → List A → Bool
is_empty [] = true
is_empty (x ∷ l) = false

module _ ⦃fl : Float⦄ ⦃ht : HashTable⦄ ⦃ch : Channel⦄ where
  open fl use {F}

  -- `raw_receiver` is there exactly if the map has the sender of the channel, which both share.
  pub record WorkerState : Type 0 where
    pub aggregator : StripedAggMap
    pub exporters : List (Exporter F)
    pub stderr : List Str

  unfoldable pub flush_and_export : WorkerState → Outcome WorkerState
  flush_and_export w = do
    (metrics, aggregator) ← flush w.aggregator
    let (exporters, stderr) = export_each (export metrics) w.exporters w.stderr
    let quiet : WorkerState = record w { aggregator = aggregator }
    ok (if is_empty metrics then quiet else record quiet { exporters = exporters; stderr = stderr })

  -- `while let Ok(point) = receiver.try_recv() { points.push(point); }`
  unfoldable pub receive_all :
      ℕ
      → ch.Queue (RawDistributionPoint F)
      → Outcome (List (RawDistributionPoint F) × ch.Queue (RawDistributionPoint F))
  receive_all zero q = out_of_fuel
  receive_all (suc fuel) q = elim (ch.try_recv q) [
    | none ↦ ok ([], q)
    | some (point, q') ↦ do (points, q'') ← receive_all fuel q'; ok (point ∷ points, q'')
  ]

  unfoldable pub drain_raw_and_export : ℕ → WorkerState → Outcome WorkerState
  drain_raw_and_export fuel w = elim w.aggregator.raw_sender [
    | none ↦ ok w
    | some receiver ↦ do
      (points, receiver') ← receive_all fuel receiver
      let drained = record (w.aggregator) { raw_sender = some receiver' }
      let (exporters, stderr) = export_each (export_raw_points points) w.exporters w.stderr
      let quiet : WorkerState = record w { aggregator = drained }
      ok (
          if is_empty points
          then quiet
          else record quiet { exporters = exporters; stderr = stderr })
  ]

  unfoldable pub round : ℕ → WorkerState → Outcome WorkerState
  round fuel w = flush_and_export w >>= drain_raw_and_export fuel

  abbrev closed :
      Option (ch.Queue (RawDistributionPoint F)) → Option (ch.Queue (RawDistributionPoint F))
  closed none = none
  closed (some q) = some (ch.close q)

  -- The worker's future owns the receiver, which is dropped with it.
  abbrev pub drop_receiver : WorkerState → WorkerState
  drop_receiver w = record w {
    aggregator = record (w.aggregator) { raw_sender = closed w.aggregator.raw_sender };
  }

  -- The loop ends behind the final flush; `false` says that it still waits for an event.
  unfoldable pub work : ℕ → List Event → WorkerState → Outcome (Bool × WorkerState)
  work fuel [] w = ok (false, w)
  work fuel (tick ∷ events) w = round fuel w >>= work fuel events
  work fuel (shutdown ∷ events) w = do w' ← round fuel w; ok (true, drop_receiver w')
