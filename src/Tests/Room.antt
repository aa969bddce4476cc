-- ===== src/Tests/Room.antt =====
-- The list in the place of the hash table always has room.
use chalk_metrics.Aggregator.{StripedAggMap}
use chalk_metrics.Aggregator.History.{counts_by, sets, observes, flushes}
use chalk_metrics.Aggregator.Lookup.{HasRoomFor}
use chalk_metrics.Prelude.{ℕ, List, [], ◌∷◌, inr, arith}
use chalk_metrics.Tests.Standins.{whole, listed, bounded}
use chalk_metrics.Worker.{WorkerState}
use chalk_metrics.Worker.System.{Step, records, wakes, NeverGrows}

pub has_room : (m : StripedAggMap) (h : ℕ) → HasRoomFor m h
has_room m h t here absent = inr (omega arith)

pub never_grows : (fuel : ℕ) (w : WorkerState) (steps : List Step) → NeverGrows fuel w steps
never_grows fuel w [] = tt
never_grows fuel w (wakes ∷ steps) = (tt, λ w' run. never_grows fuel w' steps)
never_grows fuel w (records (counts_by i delta) ∷ steps) =
    (has_room w.aggregator _, λ w' run. never_grows fuel w' steps)
never_grows fuel w (records (sets i value) ∷ steps) =
    (has_room w.aggregator _, λ w' run. never_grows fuel w' steps)
never_grows fuel w (records (observes i value) ∷ steps) =
    (has_room w.aggregator _, λ w' run. never_grows fuel w' steps)
never_grows fuel w (records flushes ∷ steps) = (tt, λ w' run. never_grows fuel w' steps)
