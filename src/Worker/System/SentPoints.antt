-- ===== src/Worker/System/SentPoints.antt =====
-- src/worker.rs with `aggregate_distr_metrics(false)`, and src/export/statsd.rs: the raw points, as
-- a receiver of the datagrams reads them.
use chalk_metrics.Aggregator.{RawDistributionPoint}
use chalk_metrics.Aggregator.Invariant.{IsMap}
use chalk_metrics.Deps.{Channel, HashTable, IsHashTable, IsChannel}
use chalk_metrics.Export.Serving.{serve_all}
use chalk_metrics.Export.Serving.Distributions.{distributions, calls-distributions}
use chalk_metrics.Export.Serving.Read.{IsReadable, IsReceived, serve_all-IsReceived}
use chalk_metrics.Export.Statsd.{StatsdExporter, percentiles, Wire, udp}
use chalk_metrics.Export.Statsd.Samples.{
  IsDisplayed, IsWritable, IsExportablePoint, sample_of_point,
}
use chalk_metrics.Export.Statsd.Udp.{TakesAll}
use chalk_metrics.Float.{Float}
use chalk_metrics.Prelude.{
  ℕ, ◌+◌, ◌≤◌, ◌<◌, ◌≡◌, sym, ap, ◌∙◌, true, false, List, [], ◌∷◌, ◌++◌, map, some, length, All,
  All-split, ◌>>=◌, Returns, Returns-both, subst,
}
use chalk_metrics.Worker.{Call, Exporter, WorkerState, export, export_raw_points, shutdown, work}
use chalk_metrics.Worker.System.{Step, run_steps, IsRecording, NeverGrows}
use chalk_metrics.Worker.System.Points.{HaveGot, points_in, recorded_points}
use chalk_metrics.Worker.System.RawPoints.{run_steps-points}
use chalk_metrics.Worker.System.Readable.{IsReadableMap}
use chalk_metrics.Worker.System.Sent.{IsReadableStep}
use chalk_metrics.Worker.System.Legible.{HasMetrics, HaveMetrics, IsLegible, shut_down-IsLegible}

module _ ⦃fl : Float⦄ ⦃ht : HashTable⦄ ⦃ch : Channel⦄ where
  open fl use {F}

  calls-IsReadable :
      (calls : List (Call F))
      → All HasMetrics calls
      → All IsExportablePoint (points_in calls)
      → All IsReadable calls
  calls-IsReadable [] h k = tt
  calls-IsReadable (export metrics ∷ calls) h k = (h.0, calls-IsReadable calls h.1 k)
  calls-IsReadable (export_raw_points points ∷ calls) h k =
      let (a, b) = All-split IsExportablePoint points (points_in calls) k in
      (a, calls-IsReadable calls h.1 b)

  -- The datagrams are read as the samples of the calls, the distributions among them as those of
  -- the points.
  abbrev pub ArePointsRead :
      StatsdExporter F → List (RawDistributionPoint F) → List (Call F) → Wire → Wire → Type 0
  ArePointsRead e points calls w r =
      (s : IsReceived e calls w r) × (distributions s.samples ≡ map (sample_of_point e) points)

  module _ (shown : IsDisplayed) (e : StatsdExporter F) (writable : IsWritable e) (ps : List F)
      (mode : e.histogram_mode ≡ percentiles ps) (wire : Wire) (u : wire.socket ≡ udp)
      (takes : TakesAll wire) where
    read_points :
        (points : List (RawDistributionPoint F)) (es es' : List (Exporter F))
        → All (λ (x : Exporter F). x.calls ≡ []) es
        → HaveGot points es es'
        → HaveMetrics es'
        → All IsExportablePoint points
        → All
            (λ (x : Exporter F).
              Returns (serve_all e x.calls wire) (ArePointsRead e points x.calls wire))
            es'
    read_points points [] [] none_yet got have k = tt
    read_points points [] (x' ∷ es') none_yet got have k = absurd got
    read_points points (x ∷ es) [] none_yet got have k = absurd got
    read_points points (x ∷ es) (x' ∷ es') none_yet got have k =
        let whole : points_in x'.calls ≡ points =
          got.0 ∙ ap (λ l. points_in l ++ points) none_yet.0 in
        let (r, run, s) =
          serve_all-IsReceived shown e writable x'.calls wire u takes
            (calls-IsReadable x'.calls have.0 (subst (All IsExportablePoint) (sym whole) k)) in
        let read : distributions s.samples ≡ map (sample_of_point e) points =
          calls-distributions e ps mode x'.calls s.samples s.of_calls
          ∙ ap (map (sample_of_point e)) whole in
        ((r, run, (s, read)), read_points points es es' none_yet.1 got.1 have.1 k)

    -- Over a lawful hash table and channel, let the map be in order with a sender of raw points
    -- whose receiver is there, let no table grow while it has entries, let the exporters have had
    -- no call, let the tags be made without a panic, let the channel have room for the points that
    -- wait and those that are recorded, and let the fuel exceed its capacity; let the texts of the
    -- map, of the points, of the recordings and of the StatsD exporter be such that can be read
    -- back in a datagram, and let its histograms be sent as percentiles, of quantiles between 0 and
    -- 1. Threads record and the worker wakes up in any order, and then the worker is shut down.
    -- This neither panics nor hangs. If any of the worker's exporters is the StatsD exporter over
    -- UDP, where the operating system takes every datagram, then serving its calls returns, and a
    -- receiver that reads all the datagrams gets the samples of all calls, in their order: the
    -- distributions among them are the points that waited and the recorded ones, each once and in
    -- this order.
    pub run_steps-points_read :
        (lawful : IsHashTable ht) (law : IsChannel ch) (fuel : ℕ) (w : WorkerState)
        (q : ch.Queue (RawDistributionPoint F)) (steps : List Step)
        → IsMap w.aggregator
        → w.aggregator.raw_sender ≡ some q
        → ch.is_closed q ≡ false
        → IsReadableMap w.aggregator
        → All (λ (x : Exporter F). x.calls ≡ []) w.exporters
        → All IsRecording steps
        → NeverGrows fuel w steps
        → All IsReadableStep steps
        → All IsExportablePoint (ch.waiting q ++ recorded_points steps)
        → length (ch.waiting q) + length (recorded_points steps) ≤ ch.capacity q
        → ch.capacity q < fuel
        → Returns (run_steps fuel w steps >>= work fuel (shutdown ∷ [])) λ r.
          All
            (λ (x : Exporter F).
              Returns
                (serve_all e x.calls wire)
                (ArePointsRead e (ch.waiting q ++ recorded_points steps) x.calls wire))
            r.1.exporters
    run_steps-points_read lawful law fuel w q steps inv loud live kept none_yet t g own k b f =
        let points = ch.waiting q ++ recorded_points steps in
        let (r, run, ((_, got), (_, have))) =
          Returns-both (run_steps fuel w steps >>= work fuel (shutdown ∷ []))
            (λ r. (r.0 ≡ true) × HaveGot points w.exporters r.1.exporters) (λ r. IsLegible r.1)
            (run_steps-points lawful law fuel w q steps inv loud live t g b f)
            (shut_down-IsLegible lawful law fuel w q steps inv loud live t g own b f
              (kept, nothing w.exporters none_yet)) in
        (r, run, read_points points w.exporters r.1.exporters none_yet got have k)
      where
        nothing :
            (es : List (Exporter F)) → All (λ (x : Exporter F). x.calls ≡ []) es → HaveMetrics es
        nothing [] h = tt
        nothing (x ∷ es) h = (subst (All HasMetrics) (sym h.0) tt, nothing es h.1)
