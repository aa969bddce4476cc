-- ===== src/Tests/Running.antt =====
-- Instances of the theorems on the worker and the client.
use chalk_metrics.Aggregator.{RawDistributionPoint, new_map}
use chalk_metrics.Client.{
  MetricsClientBuilder, MetricsClient, Process, new_builder, with_exporter, try_init, shutdown,
}
use chalk_metrics.Client.Lifecycle.{thread_of, shutdown-try_init, shutdown-early}
use chalk_metrics.Prelude.{
  ℕ, ◌≡◌, refl, arith, List, [], ◌∷◌, ◌++◌, map, none, some, true, false, ok, ◌>>=◌, Returns,
}
use chalk_metrics.Prelude.Text.{codes}
use chalk_metrics.Tests.Standins.{Word, word, whole, listed, bounded, Bounded, bounded-IsChannel}
use chalk_metrics.Worker.{
  Exporter, export, export_each, tick, shutdown as shutdown_event, WorkerState, receive_all, work,
  drop_receiver,
}
use chalk_metrics.Worker.Delivery.{
  called, errors_of, ticks, rounds, export_each-all, receive_all-waiting, work-shutdown,
}

-- An exporter that always fails, and one that never does.
abbrev failing : Exporter Word
failing = record { calls = []; answer = λ cs c. some (codes "refused") }

abbrev quiet : Exporter Word
quiet = record { calls = []; answer = λ cs c. none }

export_each-all_example :
    ((export_each (export []) (failing ∷ quiet ∷ []) []).0
      ≡ map (called (export [])) (failing ∷ quiet ∷ []))
    × ((export_each (export []) (failing ∷ quiet ∷ []) []).1
        ≡ [] ++ errors_of (export []) (failing ∷ quiet ∷ []))
export_each-all_example = export_each-all (export []) (failing ∷ quiet ∷ []) []

abbrev point : ℕ → RawDistributionPoint Word
point n = record {
  namespace = [];
  metric_name = record { text = codes "m"; address = 0 };
  tags = record { pairs = [] };
  value = word n;
}

abbrev two_points : List (RawDistributionPoint Word)
two_points = point 1 ∷ point 2 ∷ []

abbrev queue : Bounded (RawDistributionPoint Word)
queue = record { capacity = 4; closed = false; waiting = two_points }

receive_all-waiting_example :
    Returns (receive_all 3 queue) (λ r. (r.0 ≡ two_points) × (r.1.waiting ≡ []))
receive_all-waiting_example =
    receive_all-waiting bounded-IsChannel 3 two_points queue refl (omega arith)

abbrev worker : WorkerState
worker = record {
  aggregator = new_map 200 (word 0) none;
  exporters = failing ∷ quiet ∷ [];
  stderr = [];
}

work-shutdown_example :
    work 3 (ticks 2 ++ shutdown_event ∷ tick ∷ []) worker
    ≡ (rounds 3 3 worker >>= λ r. ok (true, drop_receiver r))
work-shutdown_example = work-shutdown 3 2 (tick ∷ []) worker

abbrev fresh : Process
fresh = record { global = none; shutdown_called = false; handlers = 0; spawned = [] }

abbrev builder : MetricsClientBuilder Word
builder = with_exporter (new_builder (word 0)) quiet

abbrev client : MetricsClient
client = record { aggregator = new_map 200 (word 0) none; worker = 0; worker_handle = true }

abbrev running : Process
running = record {
  global = some client;
  shutdown_called = false;
  handlers = 1;
  spawned = thread_of builder false ∷ [];
}

shutdown-try_init_example :
    ((shutdown (try_init builder fresh).1).spawned ≡ fresh.spawned ++ thread_of builder true ∷ [])
    × ((try_init builder fresh).0 ≡ none)
shutdown-try_init_example = shutdown-try_init builder fresh refl refl

shutdown-early_example :
    ((try_init builder (shutdown fresh)).0 ≡ none)
    × ((shutdown (try_init builder (shutdown fresh)).1) ≡ (try_init builder (shutdown fresh)).1)
    × ((try_init builder (shutdown fresh)).1.spawned
        ≡ fresh.spawned ++ thread_of builder false ∷ [])
shutdown-early_example = shutdown-early builder fresh refl
