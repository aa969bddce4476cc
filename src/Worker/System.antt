-- ===== src/Worker/System.antt =====
-- src/worker.rs with src/aggregator/striped_map.rs: the threads that record and the worker that
-- wakes up, as one sequence of steps on the map that they share.
pub mod Balance
pub mod Conservation
pub mod Points
pub mod RawPoints
pub mod Rounds
pub mod Readable
pub mod Sent
pub mod Legible
pub mod SentPoints
use chalk_metrics.Aggregator.{AggKey, AggSlot}
use chalk_metrics.Aggregator.History.{
  MapCall, run_call, counts_by, sets, observes, flushes, HasTags, HasRoomForCall, delta_of, Agrees,
}
use chalk_metrics.Deps.{Channel, HashTable}
use chalk_metrics.Float.{Float}
use chalk_metrics.Prelude.{ℕ, ◌≡◌, Bool, List, [], ◌∷◌, Outcome, ok, ◌>>=◌}
use chalk_metrics.Prelude.Int.{ℤ, pos, i64_add}
use chalk_metrics.Worker.{WorkerState, round}

module _ ⦃fl : Float⦄ ⦃ht : HashTable⦄ ⦃ch : Channel⦄ where
  open fl use {F}

  -- A thread records, or the worker wakes up for a round.
  pub data Step : Type 0 where
    records : MapCall → Step
    wakes : Step

  unfoldable pub run_step : ℕ → WorkerState → Step → Outcome WorkerState
  run_step fuel w (records c) = do
    (metrics, aggregator) ← run_call fuel w.aggregator c
    ok (record w { aggregator = aggregator })
  run_step fuel w wakes = round fuel w

  unfoldable pub run_steps : ℕ → WorkerState → List Step → Outcome WorkerState
  run_steps fuel w [] = ok w
  run_steps fuel w (s ∷ steps) = run_step fuel w s >>= λ w'. run_steps fuel w' steps

  -- A thread does not flush, and its tags are made without a panic.
  abbrev pub IsRecording : Step → Type 0
  IsRecording wakes = Unit {0}
  IsRecording (records (counts_by i delta)) = HasTags (counts_by i delta)
  IsRecording (records (sets i value)) = HasTags (sets i value)
  IsRecording (records (observes i value)) = HasTags (observes i value)
  IsRecording (records flushes) = ⊥

  abbrev pub StepAgrees : (ℕ → Bool) → Step → Type 0
  StepAgrees counted wakes = Unit {0}
  StepAgrees counted (records c) = Agrees counted c

  -- Where the step puts an entry in, its table has room.
  abbrev pub HasRoomForStep : WorkerState → Step → Type 0
  HasRoomForStep w wakes = Unit {0}
  HasRoomForStep w (records c) = HasRoomForCall w.aggregator c

  -- So do all steps, each in the state in which it comes: no table grows while it has entries.
  abbrev pub NeverGrows : ℕ → WorkerState → List Step → Type 0
  NeverGrows fuel w [] = Unit {0}
  NeverGrows fuel w (s ∷ steps) =
      HasRoomForStep w s
      × ((w' : WorkerState) → run_step fuel w s ≡ ok w' → NeverGrows fuel w' steps)

  abbrev pub delta_of_step : Step → ℤ
  delta_of_step wakes = pos 0
  delta_of_step (records c) = delta_of c

  -- The sum of the deltas that the steps record.
  abbrev pub recorded_counts : List Step → ℤ
  recorded_counts [] = pos 0
  recorded_counts (s ∷ steps) = i64_add (recorded_counts steps) (delta_of_step s)
