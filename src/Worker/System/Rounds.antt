-- ===== src/Worker/System/Rounds.antt =====
-- src/worker.rs: what a flush and a drain leave in the map, and hand over to the exporters.
use chalk_metrics.Aggregator.{FlushedMetric, RawDistributionPoint, StripedAggMap, flush}
use chalk_metrics.Deps.{Channel, HashTable}
use chalk_metrics.Float.{Float}
use chalk_metrics.Prelude.{
  ℕ, ◌≡◌, refl, ap, ◌∙◌, List, [], ◌∷◌, map, none, some, ok, Returns, subst, append-nil,
}
use chalk_metrics.Worker.{
  Exporter, WorkerState, export, export_raw_points, export_each, flush_and_export,
  drain_raw_and_export, receive_all, round,
}
use chalk_metrics.Worker.Delivery.{called, export_each-all}
use chalk_metrics.Worker.System.Points.{HaveGot, got_nothing, got_called}

module _ ⦃fl : Float⦄ ⦃ht : HashTable⦄ ⦃ch : Channel⦄ where
  open fl use {F}

  -- The exporters behind a flush: no call is made where there is nothing to export.
  abbrev pub exported_to : List (FlushedMetric F) → List (Exporter F) → List (Exporter F)
  exported_to [] es = es
  exported_to (x ∷ metrics) es = map (called (export (x ∷ metrics))) es

  -- The same of a drain.
  abbrev pub drained_to : List (RawDistributionPoint F) → List (Exporter F) → List (Exporter F)
  drained_to [] es = es
  drained_to (p ∷ points) es = map (called (export_raw_points (p ∷ points))) es

  pub flush_and_export_lem :
      (w : WorkerState) (metrics : List (FlushedMetric F)) (m : StripedAggMap)
      → flush w.aggregator ≡ ok (metrics, m)
      → Returns
          (flush_and_export w)
          (λ r. (r.aggregator ≡ m) × (r.exporters ≡ exported_to metrics w.exporters))
  unfolding flush_and_export
  flush_and_export_lem w [] m run = (record w { aggregator = m }, rw run, (refl, refl))
  flush_and_export_lem w (x ∷ metrics) m run =
      let c = export (x ∷ metrics) in
      let sent = export_each c w.exporters w.stderr in
      (
        record w { aggregator = m; exporters = sent.0; stderr = sent.1 },
        rw run,
        (refl, (export_each-all c w.exporters w.stderr).0),
      )

  pub drain_lem :
      (fuel : ℕ) (w : WorkerState) (q q' : ch.Queue (RawDistributionPoint F))
      (points : List (RawDistributionPoint F))
      → w.aggregator.raw_sender ≡ some q
      → receive_all fuel q ≡ ok (points, q')
      → Returns (drain_raw_and_export fuel w) λ r.
        (r.aggregator ≡ record (w.aggregator) { raw_sender = some q' })
        × (r.exporters ≡ drained_to points w.exporters)
  unfolding drain_raw_and_export
  drain_lem fuel w q q' [] loud run = (
    record w { aggregator = record (w.aggregator) { raw_sender = some q' } },
    simp (loud, run, drain_raw_and_export),
    (refl, refl),
  )
  drain_lem fuel w q q' (p ∷ points) loud run =
      let c = export_raw_points (p ∷ points) in
      let sent = export_each c w.exporters w.stderr in
      (
        record {
          aggregator = record (w.aggregator) { raw_sender = some q' };
          exporters = sent.0;
          stderr = sent.1;
        },
        simp (loud, run, drain_raw_and_export),
        (refl, (export_each-all c w.exporters w.stderr).0),
      )

  drain_quiet :
      (fuel : ℕ) (w : WorkerState)
      → w.aggregator.raw_sender ≡ none
      → drain_raw_and_export fuel w ≡ ok w
  unfolding drain_raw_and_export
  drain_quiet fuel w quiet = simp (quiet, drain_raw_and_export)

  -- Without a sender a round is a flush.
  pub round_lem :
      (fuel : ℕ) (w : WorkerState) (metrics : List (FlushedMetric F)) (m : StripedAggMap)
      → flush w.aggregator ≡ ok (metrics, m)
      → m.raw_sender ≡ none
      → Returns
          (round fuel w)
          (λ r. (r.aggregator ≡ m) × (r.exporters ≡ exported_to metrics w.exporters))
  unfolding round
  round_lem fuel w metrics m run quiet =
      let (r, go, (same, sent)) = flush_and_export_lem w metrics m run in
      let still : r.aggregator.raw_sender ≡ none =
        ap (λ (x : StripedAggMap). x.raw_sender) same ∙ quiet in
      (r, rw go (drain_quiet fuel r still), (same, sent))

  -- A flush hands over no points, and a drain the ones that it has received.
  pub got_exported :
      (metrics : List (FlushedMetric F)) (es : List (Exporter F))
      → HaveGot [] es (exported_to metrics es)
  got_exported [] es = got_nothing es
  got_exported (x ∷ metrics) es = got_called (export (x ∷ metrics)) es

  pub got_drained :
      (points : List (RawDistributionPoint F)) (es : List (Exporter F))
      → HaveGot points es (drained_to points es)
  got_drained [] es = got_nothing es
  got_drained (p ∷ points) es =
      subst (λ x. HaveGot x es (map (called (export_raw_points (p ∷ points))) es))
        (append-nil (p ∷ points)) (got_called (export_raw_points (p ∷ points)) es)
