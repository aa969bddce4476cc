-- ===== src/Aggregator/Recording.antt =====
-- src/aggregator/striped_map.rs: `record_count` and `record_gauge` of the map.
use chalk_metrics.Aggregator.{
  combined, TagsData, AggSlot, StripedAggMap, Identity, count_occupied, gauge_occupied,
  record_count, record_gauge, Entry,
}
use chalk_metrics.Aggregator.Lookup.{
  entry_of, IsStriped, HasTables, HasRoomFor, recorded, fresh_entry, IsRecorded, IsPut,
  record_in-IsPut, IsPut-IsRecorded,
}
use chalk_metrics.Deps.{Channel, HashTable, IsHashTable}
use chalk_metrics.Float.{Float}
use chalk_metrics.Prelude.{◌≡◌, refl, ok, Returns}
use chalk_metrics.Prelude.Int.{ℤ, pos, i64_add}
use chalk_metrics.Slots.Count.{new_count, record_count_slot}
use chalk_metrics.Slots.Gauge.{new_gauge, record_gauge_slot}

module _ ⦃fl : Float⦄ ⦃ht : HashTable⦄ ⦃ch : Channel⦄ where
  open fl use {F}

  -- A count with a delta more; a slot of another kind as it is.
  abbrev pub with_delta : ℤ → AggSlot F → AggSlot F
  with_delta delta (AggSlot.count s) = AggSlot.count (record { value = i64_add s.value delta })
  with_delta delta (AggSlot.gauge s) = AggSlot.gauge s
  with_delta delta (AggSlot.histogram s) = AggSlot.histogram s

  -- A gauge with its value replaced; a slot of another kind as it is.
  abbrev pub with_value : F → AggSlot F → AggSlot F
  with_value value (AggSlot.gauge s) = AggSlot.gauge (record { bits = fl.to_bits value })
  with_value value (AggSlot.count s) = AggSlot.count s
  with_value value (AggSlot.histogram s) = AggSlot.histogram s

  count_case : (delta : ℤ) (s : AggSlot F) → count_occupied delta s ≡ ok (with_delta delta s)
  unfolding count_occupied record_count_slot
  count_case delta (AggSlot.count s) = refl
  count_case delta (AggSlot.gauge s) = refl
  count_case delta (AggSlot.histogram s) = refl

  gauge_case : (value : F) (s : AggSlot F) → gauge_occupied value s ≡ ok (with_value value s)
  unfolding gauge_occupied record_gauge_slot
  gauge_case value (AggSlot.gauge s) = refl
  gauge_case value (AggSlot.count s) = refl
  gauge_case value (AggSlot.histogram s) = refl

  -- The entries that a first count and a first gauge put in.
  abbrev pub first_count : Identity → TagsData → ℤ → Entry
  first_count i tags delta =
      fresh_entry i tags (AggSlot.count (record { value = i64_add (pos 0) delta }))

  abbrev pub first_gauge : Identity → TagsData → F → Entry
  first_gauge i tags value = fresh_entry i tags (AggSlot.gauge (record { bits = fl.to_bits value }))

  module _ (law : IsHashTable ht) (m : StripedAggMap) (i : Identity) (tags : TagsData)
      (of_tags : i.make_tags ≡ ok tags) (striped : IsStriped m) (tables : HasTables m)
      (room : HasRoomFor m (combined i)) where
    pub record_count-IsPut :
        (delta : ℤ)
        → Returns (record_count m i delta) (
            IsPut m
              (combined i)
              (recorded (with_delta delta) (first_count i tags delta) (entry_of m (combined i))))
    unfolding record_count record_count_slot new_count
    record_count-IsPut delta =
        record_in-IsPut law m i (count_occupied delta)
          (ok (AggSlot.count (record_count_slot new_count delta))) striped tables (with_delta delta)
          (AggSlot.count (record { value = i64_add (pos 0) delta })) tags room (count_case delta)
          refl of_tags

    pub record_gauge-IsPut :
        (value : F)
        → Returns (record_gauge m i value) (
            IsPut m
              (combined i)
              (recorded (with_value value) (first_gauge i tags value) (entry_of m (combined i))))
    unfolding record_gauge record_gauge_slot new_gauge
    record_gauge-IsPut value =
        record_in-IsPut law m i (gauge_occupied value)
          (ok (AggSlot.gauge (record_gauge_slot new_gauge value))) striped tables (with_value value)
          (AggSlot.gauge (record { bits = fl.to_bits value })) tags room (gauge_case value) refl
          of_tags

    -- Over a lawful hash table with 64 stripes of consistent tables, with room in the table of the
    -- hash where it is not there, and tags that are made without a panic, recording a count
    -- returns, and changes the entry of its own combined hash alone: a count that is there gets the
    -- delta added with wrap-around, a slot of another kind stays, and a missing entry is put in
    -- with the namespace, the name, the tags and the delta.
    pub record_count-IsRecorded :
        (delta : ℤ)
        → Returns (record_count m i delta) (
            IsRecorded m i
              (with_delta delta)
              (fresh_entry i tags (AggSlot.count (record { value = i64_add (pos 0) delta }))))
    record_count-IsRecorded delta =
        let (r, run, p) = record_count-IsPut delta in
        (r, run, IsPut-IsRecorded m i (with_delta delta) (first_count i tags delta) r striped p)

    -- Over a lawful hash table with 64 stripes of consistent tables, with room in the table of the
    -- hash where it is not there, and tags that are made without a panic, recording a gauge
    -- returns, and changes the entry of its own combined hash alone: a gauge that is there gets the
    -- bits of the value, a slot of another kind stays, and a missing entry is put in with the
    -- namespace, the name, the tags and the value.
    pub record_gauge-IsRecorded :
        (value : F)
        → Returns (record_gauge m i value) (
            IsRecorded m i
              (with_value value)
              (fresh_entry i tags (AggSlot.gauge (record { bits = fl.to_bits value }))))
    record_gauge-IsRecorded value =
        let (r, run, p) = record_gauge-IsPut value in
        (r, run, IsPut-IsRecorded m i (with_value value) (first_gauge i tags value) r striped p)
