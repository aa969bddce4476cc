-- ===== src/Worker/System/Legible.antt =====
-- src/worker.rs with `aggregate_distr_metrics(false)`: where the texts of the calls can be read back
-- in a datagram, those of the exported metrics can be.
use chalk_metrics.Aggregator.{FlushedMetric, RawDistributionPoint, StripedAggMap}
use chalk_metrics.Aggregator.Flushing.{flush-IsFlushed}
use chalk_metrics.Aggregator.Histograms.{record_histogram-IsSent}
use chalk_metrics.Aggregator.History.{run_call, counts_by, sets, observes, flushes}
use chalk_metrics.Aggregator.Invariant.{IsMap}
use chalk_metrics.Deps.{Channel, HashTable, IsHashTable, IsChannel}
use chalk_metrics.Export.Serving.Read.{IsReadable}
use chalk_metrics.Float.{Float}
use chalk_metrics.Prelude.{
  ℕ, ◌+◌, ◌≤◌, ◌<◌, ◌≡◌, refl, sym, ap, ◌∙◌, true, false, List, [], ◌∷◌, map, some, length,
  length-append, All, All-append, ◌>>=◌, Returns, Returns-both, subst, arith,
}
use chalk_metrics.Worker.{
  drop_receiver, Call, Exporter, WorkerState, export, export_raw_points, round, shutdown, work,
}
use chalk_metrics.Worker.Delivery.{called, receive_all-drains}
use chalk_metrics.Worker.System.{
  Step, records, wakes, run_step, run_steps, IsRecording, HasRoomForStep, NeverGrows,
}
use chalk_metrics.Worker.System.Points.{point_in, recorded_points}
use chalk_metrics.Worker.System.RawPoints.{IsServed, step-IsServed, run_steps-IsServed}
use chalk_metrics.Worker.System.Readable.{
  IsReadableMap, IsReadableMap-same, IsFlushed-AreReadable, record_count-IsReadableMap,
  record_gauge-IsReadableMap,
}
use chalk_metrics.Worker.System.Rounds.{exported_to, drained_to, flush_and_export_lem, drain_lem}
use chalk_metrics.Worker.System.Sent.{IsReadableStep}

module _ ⦃fl : Float⦄ ⦃ht : HashTable⦄ ⦃ch : Channel⦄ where
  open fl use {F}

  -- The metrics that a call hands over can be read back.
  abbrev pub HasMetrics : Call F → Type 0
  HasMetrics (export metrics) = IsReadable (export metrics)
  HasMetrics (export_raw_points points) = Unit {0}

  abbrev pub HaveMetrics : List (Exporter F) → Type 0
  HaveMetrics es = All (λ (e : Exporter F). All HasMetrics e.calls) es

  called-HaveMetrics :
      (c : Call F) (es : List (Exporter F))
      → HasMetrics c
      → HaveMetrics es
      → HaveMetrics (map (called c) es)
  called-HaveMetrics c [] h k = tt
  called-HaveMetrics c (e ∷ es) h k =
      (All-append HasMetrics e.calls (c ∷ []) k.0 (h, tt), called-HaveMetrics c es h k.1)

  exported_to-HaveMetrics :
      (metrics : List (FlushedMetric F)) (es : List (Exporter F))
      → IsReadable (export metrics)
      → HaveMetrics es
      → HaveMetrics (exported_to metrics es)
  exported_to-HaveMetrics [] es h k = k
  exported_to-HaveMetrics (x ∷ metrics) es h k = called-HaveMetrics (export (x ∷ metrics)) es h k

  drained_to-HaveMetrics :
      (points : List (RawDistributionPoint F)) (es : List (Exporter F))
      → HaveMetrics es
      → HaveMetrics (drained_to points es)
  drained_to-HaveMetrics [] es k = k
  drained_to-HaveMetrics (p ∷ points) es k =
      called-HaveMetrics (export_raw_points (p ∷ points)) es tt k

  abbrev pub IsLegible : WorkerState → Type 0
  IsLegible w = IsReadableMap w.aggregator × HaveMetrics w.exporters

  module _ (lawful : IsHashTable ht) (law : IsChannel ch) (fuel : ℕ) where
    round-IsLegible :
        (w : WorkerState) (q : ch.Queue (RawDistributionPoint F))
        → IsMap w.aggregator
        → w.aggregator.raw_sender ≡ some q
        → length (ch.waiting q) < fuel
        → IsLegible w
        → Returns (round fuel w) IsLegible
    unfolding round
    round-IsLegible w q inv loud f (kept, have) =
        let ((metrics, m), run, fd) = flush-IsFlushed lawful w.aggregator inv in
        let (readable, left) = IsFlushed-AreReadable lawful w.aggregator metrics m inv kept fd in
        let (w', run', (same, exported)) = flush_and_export_lem w metrics m run in
        let still : w'.aggregator.raw_sender ≡ some q =
          ap (λ (x : StripedAggMap). x.raw_sender) same ∙ fd.raw_sender ∙ loud in
        let ((points, q'), go, _) = receive_all-drains law fuel (ch.waiting q) q refl f in
        let (r, run'', (same', drained)) = drain_lem fuel w' q q' points still go in
        (
          r,
          rw run' run'',
          (
            IsReadableMap-same m r.aggregator
                (ap (λ (x : StripedAggMap). x.stripes) same'
                  ∙ ap (λ (x : StripedAggMap). x.stripes) same)
                left,
            subst HaveMetrics (sym drained) (
                drained_to-HaveMetrics points w'.exporters (
                  subst HaveMetrics (sym exported)
                    (exported_to-HaveMetrics metrics w.exporters readable have))),
          ),
        )

    step-IsLegible :
        (w : WorkerState) (q : ch.Queue (RawDistributionPoint F)) (s : Step)
        → IsMap w.aggregator
        → w.aggregator.raw_sender ≡ some q
        → length (ch.waiting q) < fuel
        → IsRecording s
        → HasRoomForStep w s
        → IsReadableStep s
        → IsLegible w
        → Returns (run_step fuel w s) IsLegible
    unfolding run_step run_call
    step-IsLegible w q (records (counts_by i delta)) inv loud f (tags, t) room own (kept, have) =
        let (m, run, h) =
          record_count-IsReadableMap lawful w.aggregator i tags delta inv t room kept own in
        (record w { aggregator = m }, rw run, (h, have))
    step-IsLegible w q (records (sets i value)) inv loud f (tags, t) room own (kept, have) =
        let (m, run, h) =
          record_gauge-IsReadableMap lawful w.aggregator i tags value inv t room kept own in
        (record w { aggregator = m }, rw run, (h, have))
    step-IsLegible w q (records (observes i value)) inv loud f (tags, t) room own (kept, have) =
        let (m, run, s) = record_histogram-IsSent law fuel w.aggregator i tags value q loud t in
        (
          record w { aggregator = m },
          rw run,
          (IsReadableMap-same w.aggregator m s.stripes kept, have),
        )
    step-IsLegible w q (records flushes) inv loud f t room own h = absurd t
    step-IsLegible w q wakes inv loud f t room own h = round-IsLegible w q inv loud f h

    run_steps-IsLegible :
        (w : WorkerState) (q : ch.Queue (RawDistributionPoint F)) (steps : List Step)
        → IsMap w.aggregator
        → w.aggregator.raw_sender ≡ some q
        → ch.is_closed q ≡ false
        → All IsRecording steps
        → NeverGrows fuel w steps
        → All IsReadableStep steps
        → length (ch.waiting q) + length (recorded_points steps) ≤ ch.capacity q
        → ch.capacity q < fuel
        → IsLegible w
        → Returns (run_steps fuel w steps) IsLegible
    unfolding run_steps
    run_steps-IsLegible w q [] inv loud live t g own b f h = (w, refl, h)
    run_steps-IsLegible w q (s ∷ steps) inv loud live t g own b f h =
        let new = point_in s in
        let later = recorded_points steps in
        let both = length-append new later in
        let (w', run, (x, next)) =
          Returns-both (run_step fuel w s) (IsServed q new w) IsLegible
            (step-IsServed lawful law fuel w q s inv loud live t.0 g.0 (omega (arith, b, both)) f)
            (step-IsLegible w q s inv loud (omega (arith, b, f)) t.0 g.0 own.0 h) in
        let counted = length-append x.got (ch.waiting x.queue) in
        let added = length-append (ch.waiting q) new in
        let few : length (ch.waiting x.queue) + length later ≤ ch.capacity x.queue =
          omega (arith, b, both, counted, added, ap length x.all, x.capacity) in
        let (r, run', last) =
          run_steps-IsLegible w' x.queue steps x.in_order x.sender x.alive t.1 (g.1 w' run) own.1
            few (omega (arith, f, x.capacity)) next in
        (r, ap (λ x. x >>= λ v. run_steps fuel v steps) run ∙ run', last)

    pub shut_down-IsLegible :
        (w : WorkerState) (q : ch.Queue (RawDistributionPoint F)) (steps : List Step)
        → IsMap w.aggregator
        → w.aggregator.raw_sender ≡ some q
        → ch.is_closed q ≡ false
        → All IsRecording steps
        → NeverGrows fuel w steps
        → All IsReadableStep steps
        → length (ch.waiting q) + length (recorded_points steps) ≤ ch.capacity q
        → ch.capacity q < fuel
        → IsLegible w
        → Returns (run_steps fuel w steps >>= work fuel (shutdown ∷ [])) (λ r. IsLegible r.1)
    unfolding work
    shut_down-IsLegible w q steps inv loud live t g own b f h =
        let (w', run, (x, before)) =
          Returns-both (run_steps fuel w steps) (IsServed q (recorded_points steps) w) IsLegible
            (run_steps-IsServed lawful law fuel w q steps inv loud live t g b f)
            (run_steps-IsLegible w q steps inv loud live t g own b f h) in
        let counted = length-append x.got (ch.waiting x.queue) in
        let added = length-append (ch.waiting q) (recorded_points steps) in
        let (r, run', last) =
          round-IsLegible w' x.queue x.in_order x.sender
            (omega (arith, b, f, counted, added, ap length x.all)) before in
        ((true, drop_receiver r), ap (λ x. x >>= work fuel (shutdown ∷ [])) run ∙ rw run', last)
