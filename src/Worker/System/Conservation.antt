-- ===== src/Worker/System/Conservation.antt =====
-- src/worker.rs with src/aggregator/striped_map.rs: what the threads record reaches every exporter.
use chalk_metrics.Aggregator.{FlushedMetric, StripedAggMap}
use chalk_metrics.Aggregator.Counts.{pending, counts-IsI64}
use chalk_metrics.Aggregator.Drained.{count_in, exported_counts, IsFlushed-counts}
use chalk_metrics.Aggregator.Enumeration.{all_entries}
use chalk_metrics.Aggregator.Flushing.{flush-IsFlushed}
use chalk_metrics.Aggregator.History.{
  MapCall, run_call, counts_by, sets, observes, flushes, HasTags, delta_of, AreSorted,
}
use chalk_metrics.Aggregator.History.Effects.{gauge_alone-sorted}
use chalk_metrics.Aggregator.History.Runs.{run_call-IsStep}
use chalk_metrics.Aggregator.Invariant.{IsMap}
use chalk_metrics.Aggregator.Lookup.{entry_of}
use chalk_metrics.Deps.{Channel, HashTable, IsHashTable}
use chalk_metrics.Float.{Float, IsFloat}
use chalk_metrics.Prelude.{
  ℕ, ◌≤◌, ◌≡◌, refl, sym, ap, ◌∙◌, Bool, true, List, [], ◌∷◌, none, All, ok, ◌>>=◌, Returns, subst,
  arith,
}
use chalk_metrics.Prelude.Int.{ℤ, pos, i64_add, IsI64, i64_add-IsI64}
use chalk_metrics.Prelude.Int.Residues.{i64_add_comm, i64_add-zero}
use chalk_metrics.Worker.{drop_receiver, Exporter, WorkerState, export, round, shutdown, work}
use chalk_metrics.Worker.System.{
  Step, records, wakes, run_step, run_steps, IsRecording, HasRoomForStep, NeverGrows, StepAgrees,
  delta_of_step, recorded_counts,
}
use chalk_metrics.Worker.System.Balance.{
  AreBalanced, balanced_recorded, balanced_exported, balanced_trans,
}
use chalk_metrics.Worker.System.Rounds.{exported_to, round_lem}

module _ ⦃fl : Float⦄ ⦃ht : HashTable⦄ ⦃ch : Channel⦄ where
  open fl use {F}

  pub recording_tags : (c : MapCall) → IsRecording (records c) → HasTags c
  recording_tags (counts_by i delta) h = h
  recording_tags (sets i value) h = h
  recording_tags (observes i value) h = h
  recording_tags flushes h = absurd h

  pub pending-IsI64 : (m : StripedAggMap) → IsI64 (pending m)
  pending-IsI64 m = counts-IsI64 (all_entries m.stripes)

  recorded_counts-IsI64 : (steps : List Step) → IsI64 (recorded_counts steps)
  recorded_counts-IsI64 [] = omega arith
  recorded_counts-IsI64 (s ∷ steps) = i64_add-IsI64 (recorded_counts steps) (delta_of_step s)

  -- A recording exports nothing.
  recording-quiet :
      (fuel : ℕ) (m : StripedAggMap) (c : MapCall) (r : List (FlushedMetric F) × StripedAggMap)
      → IsRecording (records c)
      → run_call fuel m c ≡ ok r
      → r.0 ≡ []
  unfolding run_call
  recording-quiet fuel m (counts_by i delta) r h e = ground arith
  recording-quiet fuel m (sets i value) r h e = ground arith
  recording-quiet fuel m (observes i value) r h e = ground arith
  recording-quiet fuel m flushes r h e = absurd h

  exported_to-AreBalanced :
      (p : ℤ) (metrics : List (FlushedMetric F)) (es : List (Exporter F))
      → exported_counts metrics ≡ p
      → AreBalanced p (pos 0) (pos 0) es (exported_to metrics es)
  exported_to-AreBalanced p [] es h =
      balanced_recorded p (pos 0) (pos 0) es
        (sym (i64_add-zero (pos 0) (omega arith)) ∙ ap (i64_add (pos 0)) h)
  exported_to-AreBalanced p (x ∷ metrics) es h = balanced_exported p (export (x ∷ metrics)) es (
      i64_add_comm (exported_counts (x ∷ metrics)) (pos 0)
      ∙ i64_add-zero (exported_counts (x ∷ metrics))
          (i64_add-IsI64 (count_in x.value) (exported_counts metrics))
      ∙ h)

  -- The worker behind some steps: the map is in order, and each exporter has received what left it.
  pub record IsSystem (counted : ℕ → Bool) (d : ℤ) (w r : WorkerState) : Type 0 where
    pub in_order : IsMap r.aggregator
    pub quiet : r.aggregator.raw_sender ≡ none
    pub sorted : AreSorted counted r.aggregator
    pub balanced :
        AreBalanced (pending w.aggregator) (pending r.aggregator) d w.exporters r.exporters

  module _ (law : IsFloat fl) (lawful : IsHashTable ht) (fuel : ℕ) (f : 65 ≤ fuel)
      (counted : ℕ → Bool) where
    round-IsSystem :
        (w : WorkerState)
        → IsMap w.aggregator
        → w.aggregator.raw_sender ≡ none
        → AreSorted counted w.aggregator
        → Returns
            (round fuel w)
            (λ r. IsSystem counted (pos 0) w r × (pending r.aggregator ≡ pos 0))
    round-IsSystem w inv quiet sorted =
        let ((metrics, m), run, fd) = flush-IsFlushed lawful w.aggregator inv in
        let (all, left) = IsFlushed-counts lawful w.aggregator metrics m inv fd in
        let still : m.raw_sender ≡ none = fd.raw_sender ∙ quiet in
        let (r, go, (same, sent)) = round_lem fuel w metrics m run still in
        let p = pending w.aggregator in
        let waits : pending r.aggregator ≡ pos 0 = ap pending same ∙ left in
        (
          r,
          go,
          (
            record {
              in_order = subst IsMap (sym same) fd.in_order;
              quiet = ap (λ (x : StripedAggMap). x.raw_sender) same ∙ still;
              sorted = subst (AreSorted counted) (sym same) λ h k slot there.
                  gauge_alone-sorted counted h (entry_of w.aggregator h) (sorted h) k slot
                    (sym (fd.entry_of_lem h) ∙ there);
              balanced =
                  subst (λ x. AreBalanced p x (pos 0) w.exporters r.exporters) (sym waits)
                    (subst (AreBalanced p (pos 0) (pos 0) w.exporters) (sym sent)
                      (exported_to-AreBalanced p metrics w.exporters all));
            },
            waits,
          ),
        )

    step-IsSystem :
        (w : WorkerState) (s : Step)
        → IsMap w.aggregator
        → w.aggregator.raw_sender ≡ none
        → AreSorted counted w.aggregator
        → IsRecording s
        → HasRoomForStep w s
        → StepAgrees counted s
        → Returns (run_step fuel w s) (IsSystem counted (delta_of_step s) w)
    unfolding run_step
    step-IsSystem w (records c) inv quiet sorted t room a =
        let ((metrics, m), run, step) =
          run_call-IsStep law lawful fuel f w.aggregator c inv quiet (recording_tags c t) room in
        let nothing : metrics ≡ [] = recording-quiet fuel w.aggregator c (metrics, m) t run in
        let more : pending m ≡ i64_add (delta_of c) (pending w.aggregator) =
          sym (i64_add-zero (pending m) (pending-IsI64 m))
          ∙ ap (λ x. i64_add (exported_counts x) (pending m)) (sym nothing)
          ∙ step.conserved counted sorted a in
        (
          record w { aggregator = m },
          rw run,
          record {
            in_order = step.in_order;
            quiet = step.raw_sender ∙ quiet;
            sorted = step.sorted counted sorted a;
            balanced =
                balanced_recorded (pending w.aggregator) (pending m) (delta_of c) w.exporters more;
          },
        )
    step-IsSystem w wakes inv quiet sorted t room a =
        let (r, run, (system, _)) = round-IsSystem w inv quiet sorted in (r, run, system)

    run_steps-IsSystem :
        (w : WorkerState) (steps : List Step)
        → IsMap w.aggregator
        → w.aggregator.raw_sender ≡ none
        → AreSorted counted w.aggregator
        → All IsRecording steps
        → NeverGrows fuel w steps
        → All (StepAgrees counted) steps
        → Returns (run_steps fuel w steps) (IsSystem counted (recorded_counts steps) w)
    unfolding run_steps
    run_steps-IsSystem w [] inv quiet sorted t g a = (
      w,
      refl,
      record {
        in_order = inv;
        quiet = quiet;
        sorted = sorted;
        balanced =
            balanced_recorded (pending w.aggregator) (pending w.aggregator) (pos 0) w.exporters
              (sym (i64_add-zero (pending w.aggregator) (pending-IsI64 w.aggregator)));
      },
    )
    run_steps-IsSystem w (s ∷ steps) inv quiet sorted t g a =
        let (w', run, first) = step-IsSystem w s inv quiet sorted t.0 g.0 a.0 in
        let (r, run', rest) =
          run_steps-IsSystem w' steps first.in_order first.quiet first.sorted t.1 (g.1 w' run)
            a.1 in
        (
          r,
          rw run run',
          record {
            in_order = rest.in_order;
            quiet = rest.quiet;
            sorted = rest.sorted;
            balanced =
                balanced_trans (pending w.aggregator) (pending w'.aggregator) (pending r.aggregator)
                  (delta_of_step s) (recorded_counts steps) w.exporters w'.exporters r.exporters
                  first.balanced rest.balanced;
          },
        )

    -- With a lawful float and hash table, 65 rounds of fuel, a map in order without a sender of raw
    -- points, tags that are made without a panic, tables that never grow while they have entries,
    -- and hashes that each hold either counts or other kinds: threads record and the worker wakes
    -- up in any order, and then the worker is shut down. This neither panics nor hangs, and ends
    -- the worker's loop with no count left in the map. Of every exporter, whatever it answered, the
    -- counts in all the calls that it has had add up, modulo 2 ^ 64, to those that it had received
    -- before, those that waited in the map, and the deltas that were recorded.
    pub run_steps-delivers :
        (w : WorkerState) (steps : List Step)
        → IsMap w.aggregator
        → w.aggregator.raw_sender ≡ none
        → AreSorted counted w.aggregator
        → All IsRecording steps
        → NeverGrows fuel w steps
        → All (StepAgrees counted) steps
        → Returns (run_steps fuel w steps >>= work fuel (shutdown ∷ [])) λ r.
          (r.0 ≡ true)
          × (pending r.1.aggregator ≡ pos 0)
          × AreBalanced
              (pending w.aggregator)
              (pos 0)
              (recorded_counts steps)
              w.exporters
              r.1.exporters
    unfolding work
    run_steps-delivers w steps inv quiet sorted t g a =
        let (w', run, before) = run_steps-IsSystem w steps inv quiet sorted t g a in
        let (r, run', (last, left)) =
          round-IsSystem w' before.in_order before.quiet before.sorted in
        let joined =
          balanced_trans (pending w.aggregator) (pending w'.aggregator) (pending r.aggregator)
            (recorded_counts steps) (pos 0) w.exporters w'.exporters r.exporters before.balanced
            last.balanced in
        (
          (true, drop_receiver r),
          rw run (rw run'),
          (
            refl,
            left,
            subst
                (λ x.
                  AreBalanced (pending w.aggregator) x (recorded_counts steps) w.exporters
                    r.exporters)
                left
                (subst
                  (λ x.
                    AreBalanced (pending w.aggregator) (pending r.aggregator) x w.exporters
                      r.exporters)
                  (i64_add-zero (recorded_counts steps) (recorded_counts-IsI64 steps)) joined),
          ),
        )
