-- ===== src/Tests/Sent.antt =====
-- Instances of the theorems from the threads to the receiver.
use chalk_metrics.Aggregator.{
  TagsData, AggKey, StripedAggMap, RawDistributionPoint, Identity, combined, combine_hash, new_map,
}
use chalk_metrics.Aggregator.Counts.{pending}
use chalk_metrics.Aggregator.History.{counts_by, observes, AreSorted}
use chalk_metrics.Aggregator.Invariant.{new_map-IsMap}
use chalk_metrics.Export.Serving.{serve_all}
use chalk_metrics.Export.Statsd.{StatsdExporter, percentiles, Wire, udp}
use chalk_metrics.Export.Statsd.Plain.{plain_nil, plain_cons, plain_u64}
use chalk_metrics.Export.Statsd.Reading.{IsPlain}
use chalk_metrics.Export.Statsd.Samples.{IsDisplayed, IsWritable, IsExportablePoint}
use chalk_metrics.Prelude.{
  true, ℕ, ◌≡◌, refl, List, [], ◌∷◌, ◌++◌, none, some, Bool, ◌==◌, nat_eq, ok, ◌>>=◌, Returns, All,
  arith, subst,
}
use chalk_metrics.Prelude.Int.{pos, negsuc, i64_add}
use chalk_metrics.Prelude.Text.{codes}
use chalk_metrics.Slots.Histogram.Values.{AreSettings}
use chalk_metrics.Tests.Room.{never_grows}
use chalk_metrics.Tests.Standins.{
  Word, word, whole, whole-IsFloat, listed, listed-IsHashTable, Bounded, bounded, bounded-IsChannel,
}
use chalk_metrics.Worker.{Exporter, WorkerState, shutdown, work}
use chalk_metrics.Worker.System.{Step, records, wakes, run_steps, IsRecording, recorded_counts}
use chalk_metrics.Worker.System.Points.{recorded_points}
use chalk_metrics.Worker.System.Readable.{IsReadableKey, IsReadableMap}
use chalk_metrics.Worker.System.Sent.{IsRead, run_steps-IsRead}
use chalk_metrics.Worker.System.SentPoints.{ArePointsRead, run_steps-points_read}

displayed : IsDisplayed
displayed x = plain_u64 x.0

letter_n : IsPlain (codes "n")
letter_n = plain_cons b'n' [] refl refl refl refl plain_nil

letter_t : IsPlain (codes "t")
letter_t = plain_cons b't' [] refl refl refl refl plain_nil

abbrev exporter : StatsdExporter Word
exporter = record {
  namespace = some (codes "n");
  default_tags = [];
  histogram_mode = percentiles (word 1 ∷ []);
  max_buffer_size = 40;
}

exporter_good : IsWritable exporter
exporter_good = record { namespace = letter_n; default_tags = tt; mode = (refl, tt) }

abbrev tags : TagsData
tags = record { pairs = (codes "t", codes "n") ∷ [] }

abbrev clicks : Identity
clicks = record {
  metric_name = record { text = codes "t"; address = 512 };
  namespace = codes "n" ∷ [];
  tags_hash = 3;
  make_tags = ok tags;
}

-- The hash of `clicks` is that of a count, and the hash of `times` is not.
abbrev times : Identity
times = record clicks { tags_hash = 4 }

abbrev is_of_counts : ℕ → Bool
is_of_counts h = h == combined clicks

key_good : IsReadableKey (record {
  namespace = codes "n" ∷ [];
  metric_name = record { text = codes "t"; address = 512 };
  tags_data = tags;
})
key_good = record {
  namespace = (letter_n, tt);
  metric_name = letter_t;
  tags = ((letter_t, letter_n.text), tt);
}

abbrev settings : AreSettings 200 (word 0)
settings = record { room = omega arith; error_range = refl }

abbrev exporters : List (Exporter Word)
exporters = record { calls = []; answer = λ cs c. none } ∷ []

abbrev map : StripedAggMap
map = new_map 200 (word 0) none

abbrev worker : WorkerState
worker = record { aggregator = map; exporters = exporters; stderr = [] }

-- Deltas of both signs, and a histogram between them.
abbrev steps : List Step
steps =
    records (counts_by clicks (pos 5))
    ∷ wakes
    ∷ records (observes times (word 3))
    ∷ records (counts_by clicks (negsuc 6))
    ∷ []

are_recordings : All IsRecording steps
are_recordings = ((tags, refl), (tt, ((tags, refl), ((tags, refl), tt))))

nothing_there : AreSorted is_of_counts map
nothing_there h k s there =
    let absent = (new_map-IsMap listed-IsHashTable 200 (word 0) none settings).1 h in cc

map_good : IsReadableMap map
map_good h e there =
    let absent = (new_map-IsMap listed-IsHashTable 200 (word 0) none settings).1 h in cc

abbrev of_tags : TagsData → AggKey
of_tags t = record {
  namespace = codes "n" ∷ [];
  metric_name = record { text = codes "t"; address = 512 };
  tags_data = t;
}

made : (t : TagsData) → ok tags ≡ ok t → IsReadableKey (of_tags t)
made t e = let same : tags ≡ t = cc in subst (λ x. IsReadableKey (of_tags x)) same key_good

abbrev wire : Wire
wire = record { socket = udp; sent = []; observations = []; attempts = 0; takes = λ n. true }

run_steps-IsRead_example : Returns (run_steps 65 worker steps >>= work 65 (shutdown ∷ [])) λ r.
    All
      (λ (x : Exporter Word).
        Returns
          (serve_all exporter x.calls wire)
          λ t. IsRead exporter x.calls wire t (i64_add (recorded_counts steps) (pending map)))
      r.1.exporters
unfolding new_map combine_hash
run_steps-IsRead_example =
    run_steps-IsRead whole-IsFloat listed-IsHashTable 65 (omega arith) is_of_counts displayed
      exporter exporter_good wire worker steps refl (λ n. refl)
      (new_map-IsMap listed-IsHashTable 200 (word 0) none settings).0 refl map_good (refl, tt)
      nothing_there are_recordings (never_grows 65 worker steps) (refl, (tt, (refl, (refl, tt))))
      (made, (tt, (made, (made, tt))))

abbrev queue : Bounded (RawDistributionPoint Word)
queue = bounded.channel 2

abbrev loud_map : StripedAggMap
loud_map = new_map 200 (word 0) (some queue)

abbrev loud_worker : WorkerState
loud_worker = record worker { aggregator = loud_map }

-- Two points, with a count and a round between them.
abbrev loud_steps : List Step
loud_steps =
    records (observes times (word 3))
    ∷ records (counts_by clicks (pos 5))
    ∷ wakes
    ∷ records (observes times (word 9))
    ∷ []

are_loud_recordings : All IsRecording loud_steps
are_loud_recordings = ((tags, refl), ((tags, refl), (tt, ((tags, refl), tt))))

loud_map_good : IsReadableMap loud_map
loud_map_good h e there =
    let absent = (new_map-IsMap listed-IsHashTable 200 (word 0) (some queue) settings).1 h in cc

points_good : All IsExportablePoint ([] ++ recorded_points loud_steps)
points_good = (
  record {
    namespace = key_good.namespace;
    metric_name = key_good.metric_name;
    tags = key_good.tags;
  },
  (
    record {
      namespace = key_good.namespace;
      metric_name = key_good.metric_name;
      tags = key_good.tags;
    },
    tt,
  ),
)

run_steps-points_read_example :
    Returns (run_steps 65 loud_worker loud_steps >>= work 65 (shutdown ∷ [])) λ r.
      All
        (λ (x : Exporter Word).
          Returns
            (serve_all exporter x.calls wire)
            (ArePointsRead exporter ([] ++ recorded_points loud_steps) x.calls wire))
        r.1.exporters
unfolding new_map
run_steps-points_read_example =
    run_steps-points_read displayed exporter exporter_good (word 1 ∷ []) refl wire refl (λ n. refl)
      listed-IsHashTable bounded-IsChannel 65 loud_worker queue loud_steps
      (new_map-IsMap listed-IsHashTable 200 (word 0) (some queue) settings).0 refl refl
      loud_map_good (refl, tt) are_loud_recordings (never_grows 65 loud_worker loud_steps)
      (made, (made, (tt, (made, tt)))) points_good (omega arith) (omega arith)
