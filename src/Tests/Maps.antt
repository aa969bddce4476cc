-- ===== src/Tests/Maps.antt =====
-- Instances of the theorems on the map.
use chalk_metrics.Aggregator.{
  TagsData, AggSlot, StripedAggMap, Identity, combined, new_map, record_count, record_gauge,
  record_histogram, flush,
}
use chalk_metrics.Aggregator.Collisions.{record_count-joined}
use chalk_metrics.Aggregator.Flushing.{IsFlushed, flush-IsFlushed}
use chalk_metrics.Aggregator.Histograms.{IsObserved, record_histogram-IsObserved}
use chalk_metrics.Aggregator.Invariant.{IsMap, new_map-IsMap}
use chalk_metrics.Aggregator.Lookup.{entry_of, fresh_entry, IsRecorded}
use chalk_metrics.Aggregator.Recording.{
  with_delta, with_value, record_count-IsRecorded, record_gauge-IsRecorded,
}
use chalk_metrics.Prelude.{
  ℕ, ◌≡◌, refl, [], ◌∷◌, some, none, ◌==◌, nat_eq, ok, ◌>>=◌, if◌then◌else◌, Returns, arith,
}
use chalk_metrics.Prelude.Int.{pos, i64_add}
use chalk_metrics.Prelude.Text.{codes}
use chalk_metrics.Slots.Histogram.Values.{AreSettings}
use chalk_metrics.Tests.Room.{has_room}
use chalk_metrics.Tests.Standins.{word, whole, whole-IsFloat, listed, listed-IsHashTable, bounded}

abbrev tags : TagsData
tags = record { pairs = (codes "k", codes "v") ∷ [] }

abbrev requests : Identity
requests = record {
  metric_name = record { text = codes "requests"; address = 1024 };
  namespace = codes "http" ∷ [];
  tags_hash = 7;
  make_tags = ok tags;
}

abbrev map : StripedAggMap
map = new_map 200 (word 0) none

abbrev settings : AreSettings 200 (word 0)
settings = record { room = omega arith; error_range = refl }

in_order : IsMap map
in_order = (new_map-IsMap listed-IsHashTable 200 (word 0) none settings).0

record_count-IsRecorded_example : Returns (record_count map requests (pos 5)) (
    IsRecorded map requests
      (with_delta (pos 5))
      (fresh_entry requests tags (AggSlot.count (record { value = i64_add (pos 0) (pos 5) }))))
unfolding new_map
record_count-IsRecorded_example =
    record_count-IsRecorded listed-IsHashTable map requests tags refl refl in_order.tables
      (has_room map (combined requests)) (pos 5)

record_gauge-IsRecorded_example : Returns (record_gauge map requests (word 9)) (
    IsRecorded map requests
      (with_value (word 9))
      (fresh_entry requests tags (AggSlot.gauge (record { bits = whole.to_bits (word 9) }))))
unfolding new_map
record_gauge-IsRecorded_example =
    record_gauge-IsRecorded listed-IsHashTable map requests tags refl refl in_order.tables
      (has_room map (combined requests)) (word 9)

record_histogram-IsObserved_example :
    Returns (record_histogram 65 map requests (word 3)) (IsObserved map requests tags (word 3))
unfolding new_map
record_histogram-IsObserved_example =
    record_histogram-IsObserved whole-IsFloat listed-IsHashTable 65 map requests tags (word 3)
      (omega arith) in_order refl (has_room map (combined requests)) refl

flush-IsFlushed_example : Returns (flush map) (λ r. IsFlushed listed-IsHashTable map r.0 r.1)
flush-IsFlushed_example = flush-IsFlushed listed-IsHashTable map in_order

-- Metrics of other namespaces with the name and the hash of `requests`.
abbrev other_requests : Identity
other_requests = record requests { namespace = codes "resolver" ∷ [] }

record_count-joined_example :
    Returns (record_count map requests (pos 5) >>= λ r. record_count r other_requests (pos 2)) λ r.
      (h : ℕ)
      → entry_of r h ≡ (
          if combined requests == h
          then some (
              fresh_entry requests tags
                (AggSlot.count (record { value = i64_add (i64_add (pos 0) (pos 5)) (pos 2) })))
          else entry_of map h)
unfolding new_map
record_count-joined_example =
    record_count-joined listed-IsHashTable map requests other_requests tags tags (pos 5) (pos 2)
      refl in_order.tables (has_room map (combined requests)) refl refl refl refl
      ((new_map-IsMap listed-IsHashTable 200 (word 0) none settings).1 (combined requests))
