-- ===== src/Aggregator/History/Runs.antt =====
-- src/aggregator/striped_map.rs: what a call on the map leaves and exports.
use chalk_metrics.Aggregator.{FlushedMetric, StripedAggMap, Identity, Entry, combined}
use chalk_metrics.Aggregator.Counts.{count_of, count_at, pending, pending_put, counts-IsI64}
use chalk_metrics.Aggregator.Drained.{exported_counts, IsFlushed-counts}
use chalk_metrics.Aggregator.Enumeration.{all_entries}
use chalk_metrics.Aggregator.Flushing.{flush-IsFlushed}
use chalk_metrics.Aggregator.Histograms.{record_histogram-IsObserved}
use chalk_metrics.Aggregator.Invariant.{IsMap, IsPut-IsMap}
use chalk_metrics.Aggregator.Lookup.{entry_of, recorded, IsPut-entry_of}
use chalk_metrics.Aggregator.Recording.{
  with_delta, with_value, first_count, first_gauge, record_count-IsPut, record_gauge-IsPut,
}
use chalk_metrics.Deps.{Channel, HashTable, IsHashTable}
use chalk_metrics.Float.{Float, IsFloat}
use chalk_metrics.Prelude.{
  ℕ, ◌≤◌, ◌≡◌, sym, ap, ◌∙◌, List, [], some, none, Bool, false, true, if◌then◌else◌, ◌==◌, nat_eq,
  Returns,
}
use chalk_metrics.Prelude.Int.{pos, i64_add}
use chalk_metrics.Prelude.Int.Residues.{i64_add_comm, i64_add-zero}
use chalk_metrics.Aggregator.History.{
  MapCall, run_call, counts_by, sets, observes, flushes, HasTags, HasRoomForCall, delta_of,
  is_count, Agrees, AreSorted, AreSorted-put,
}
use chalk_metrics.Aggregator.History.Effects.{
  OfKind, count_effect, gauge_effect, histogram_effect, count_good, gauge_good, gauge_alone-sorted,
}

module _ ⦃fl : Float⦄ ⦃ht : HashTable⦄ ⦃ch : Channel⦄ where
  open fl use {F}

  -- The map behind one call, with the metrics that it exported: what a call does to the counts is
  -- said of hashes that each hold one kind.
  pub record IsStep (m : StripedAggMap) (c : MapCall) (metrics : List (FlushedMetric F))
      (r : StripedAggMap) : Type 0 where
    pub in_order : IsMap r
    pub raw_sender : r.raw_sender ≡ m.raw_sender
    pub sorted : (counted : ℕ → Bool) → AreSorted counted m → Agrees counted c → AreSorted counted r
    pub conserved :
        (counted : ℕ → Bool)
        → AreSorted counted m
        → Agrees counted c
        → i64_add (exported_counts metrics) (pending r) ≡ i64_add (delta_of c) (pending m)

  -- A recording that puts an entry in.
  put-IsStep :
      (law : IsHashTable ht) (m : StripedAggMap) (i : Identity) (c : MapCall) (b : Bool) (e : Entry)
      (r : StripedAggMap)
      → IsMap m
      → IsMap r
      → r.raw_sender ≡ m.raw_sender
      → ((h : ℕ) → entry_of r h ≡ (if combined i == h then some e else entry_of m h))
      → ((counted : ℕ → Bool) → Agrees counted c → counted (combined i) ≡ b)
      → (OfKind b (entry_of m (combined i))
          → (is_count e.1 ≡ b)
            × (count_of e ≡ i64_add (delta_of c) (count_at (entry_of m (combined i)))))
      → IsStep m c [] r
  put-IsStep law m i c b e r inv inv' same put kind effect = record {
    in_order = inv';
    raw_sender = same;
    sorted = λ counted s a.
        AreSorted-put counted m (combined i) e r put s
          ((effect (of_kind counted s a)).0 ∙ sym (kind counted a));
    conserved = λ counted s a.
        i64_add-zero (pending r) (counts-IsI64 (all_entries r.stripes))
        ∙ pending_put law m inv (combined i) e r (delta_of c) inv' put
            (effect (of_kind counted s a)).1;
  }
    where
      of_kind :
          (counted : ℕ → Bool)
          → AreSorted counted m
          → Agrees counted c
          → OfKind b (entry_of m (combined i))
      of_kind counted s a k slot there = s (combined i) k slot there ∙ kind counted a

  module _ (law : IsFloat fl) (lawful : IsHashTable ht) (fuel : ℕ) (f : 65 ≤ fuel) where
    pub run_call-IsStep :
        (m : StripedAggMap) (c : MapCall)
        → IsMap m
        → m.raw_sender ≡ none
        → HasTags c
        → HasRoomForCall m c
        → Returns (run_call fuel m c) (λ r. IsStep m c r.0 r.1)
    unfolding run_call
    run_call-IsStep m (counts_by i delta) inv quiet (tags, t) room =
        let (r, run, p) = record_count-IsPut lawful m i tags t inv.striped inv.tables room delta in
        let e = recorded (with_delta delta) (first_count i tags delta) (entry_of m (combined i)) in
        (
          ([], r),
          rw run,
          put-IsStep lawful m i (counts_by i delta) true e r inv
              (IsPut-IsMap m (combined i) e r inv p
                (count_good i tags delta (entry_of m (combined i)) (inv.good (combined i))))
              p.raw_sender (IsPut-entry_of m (combined i) e r p) (λ counted a. a)
              (count_effect i tags delta (entry_of m (combined i))),
        )
    run_call-IsStep m (sets i value) inv quiet (tags, t) room =
        let (r, run, p) = record_gauge-IsPut lawful m i tags t inv.striped inv.tables room value in
        let e = recorded (with_value value) (first_gauge i tags value) (entry_of m (combined i)) in
        (
          ([], r),
          rw run,
          put-IsStep lawful m i (sets i value) false e r inv
              (IsPut-IsMap m (combined i) e r inv p
                (gauge_good i tags value (entry_of m (combined i)) (inv.good (combined i))))
              p.raw_sender (IsPut-entry_of m (combined i) e r p) (λ counted a. a)
              (gauge_effect i tags value (entry_of m (combined i))),
        )
    run_call-IsStep m (observes i value) inv quiet (tags, t) room =
        let (r, run, o) =
          record_histogram-IsObserved law lawful fuel m i tags value f inv t room quiet in
        (
          ([], r),
          rw run,
          put-IsStep lawful m i (observes i value) false o.entry r inv o.in_order o.raw_sender
              o.entry_of_lem (λ counted a. a)
              (histogram_effect i tags value (entry_of m (combined i)) o.entry o.effect),
        )
    run_call-IsStep m flushes inv quiet t room =
        let ((metrics, r), run, fd) = flush-IsFlushed lawful m inv in
        let (all, left) = IsFlushed-counts lawful m metrics r inv fd in
        (
          (metrics, r),
          run,
          record {
            in_order = fd.in_order;
            raw_sender = fd.raw_sender;
            sorted = λ counted s a h k slot there.
                gauge_alone-sorted counted h (entry_of m h) (s h) k slot
                  (sym (fd.entry_of_lem h) ∙ there);
            conserved = λ counted s a.
                ap (i64_add (exported_counts metrics)) left
                ∙ ap (λ x. i64_add x (pos 0)) all
                ∙ i64_add_comm (pending m) (pos 0);
          },
        )
