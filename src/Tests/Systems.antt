-- ===== src/Tests/Systems.antt =====
-- Instances of the theorems on the threads and the worker together.
use chalk_metrics.Aggregator.{
  TagsData, StripedAggMap, RawDistributionPoint, Identity, combined, combine_hash, new_map,
}
use chalk_metrics.Aggregator.Counts.{pending}
use chalk_metrics.Aggregator.History.{counts_by, observes, AreSorted}
use chalk_metrics.Aggregator.Invariant.{IsMap, new_map-IsMap}
use chalk_metrics.Prelude.{
  ℕ, ◌≡◌, refl, List, [], ◌∷◌, ◌++◌, some, none, Bool, true, ◌==◌, nat_eq, ok, ◌>>=◌, Returns, All,
  arith,
}
use chalk_metrics.Prelude.Int.{pos}
use chalk_metrics.Prelude.Text.{codes}
use chalk_metrics.Slots.Histogram.Values.{AreSettings}
use chalk_metrics.Tests.Room.{never_grows}
use chalk_metrics.Tests.Standins.{
  Word, word, whole, whole-IsFloat, listed, listed-IsHashTable, Bounded, bounded, bounded-IsChannel,
}
use chalk_metrics.Worker.{Exporter, WorkerState, shutdown, work}
use chalk_metrics.Worker.System.{Step, records, wakes, run_steps, IsRecording, recorded_counts}
use chalk_metrics.Worker.System.Balance.{AreBalanced}
use chalk_metrics.Worker.System.Conservation.{run_steps-delivers}
use chalk_metrics.Worker.System.Points.{HaveGot, recorded_points}
use chalk_metrics.Worker.System.RawPoints.{run_steps-points}

abbrev tags : TagsData
tags = record { pairs = (codes "k", codes "v") ∷ [] }

abbrev requests : Identity
requests = record {
  metric_name = record { text = codes "requests"; address = 1024 };
  namespace = codes "http" ∷ [];
  tags_hash = 7;
  make_tags = ok tags;
}

-- The hash of `requests` is that of a count, and the hash of `sizes` is not.
abbrev sizes : Identity
sizes = record requests { tags_hash = 8 }

abbrev is_of_counts : ℕ → Bool
is_of_counts h = h == combined requests

abbrev settings : AreSettings 200 (word 0)
settings = record { room = omega arith; error_range = refl }

-- An exporter that always fails, and one that never does.
abbrev exporters : List (Exporter Word)
exporters =
    record { calls = []; answer = λ cs c. some (codes "refused") }
    ∷ record { calls = []; answer = λ cs c. none }
    ∷ []

abbrev map : StripedAggMap
map = new_map 200 (word 0) none

abbrev worker : WorkerState
worker = record { aggregator = map; exporters = exporters; stderr = [] }

abbrev steps : List Step
steps =
    records (counts_by requests (pos 5))
    ∷ records (observes sizes (word 3))
    ∷ wakes
    ∷ records (counts_by requests (pos 2))
    ∷ []

are_recordings : All IsRecording steps
are_recordings = ((tags, refl), ((tags, refl), (tt, ((tags, refl), tt))))

in_order : IsMap map
in_order = (new_map-IsMap listed-IsHashTable 200 (word 0) none settings).0

nothing_there : AreSorted is_of_counts map
nothing_there h k s there =
    let absent = (new_map-IsMap listed-IsHashTable 200 (word 0) none settings).1 h in cc

run_steps-delivers_example : Returns (run_steps 65 worker steps >>= work 65 (shutdown ∷ [])) λ r.
    (r.0 ≡ true)
    × (pending r.1.aggregator ≡ pos 0)
    × AreBalanced (pending map) (pos 0) (recorded_counts steps) exporters r.1.exporters
unfolding new_map combine_hash
run_steps-delivers_example =
    run_steps-delivers whole-IsFloat listed-IsHashTable 65 (omega arith) is_of_counts worker steps
      in_order refl nothing_there are_recordings (never_grows 65 worker steps)
      (refl, (refl, (tt, (refl, tt))))

abbrev queue : Bounded (RawDistributionPoint Word)
queue = bounded.channel 2

abbrev loud_worker : WorkerState
loud_worker = record worker { aggregator = new_map 200 (word 0) (some queue) }

run_steps-points_example :
    Returns
      (run_steps 65 loud_worker steps >>= work 65 (shutdown ∷ []))
      λ r. (r.0 ≡ true) × HaveGot ([] ++ recorded_points steps) exporters r.1.exporters
unfolding new_map
run_steps-points_example =
    run_steps-points listed-IsHashTable bounded-IsChannel 65 loud_worker queue steps
      (new_map-IsMap listed-IsHashTable 200 (word 0) (some queue) settings).0 refl refl
      are_recordings (never_grows 65 loud_worker steps) (omega arith) (omega arith)
