-- ===== src/Export/Serving.antt =====
-- src/export/mod.rs and the implementations of `Exporter` in src/export/statsd.rs and
-- src/export/prometheus.rs: the calls of the worker, as each exporter serves them.
pub mod Read
pub mod Distributions
use chalk_metrics.Aggregator.{FlushedMetric}
use chalk_metrics.Export.Prometheus
use chalk_metrics.Export.Prometheus.{PrometheusExporter}
use chalk_metrics.Export.Statsd.{
  StatsdExporter, HistogramExportMode, percentiles, Wire, send_metrics, send_raw_points,
}
use chalk_metrics.Float.{Float}
use chalk_metrics.Prelude.{List, [], ◌∷◌, ◌++◌, Option, none, some, Outcome, ok, ◌>>=◌}
use chalk_metrics.Prelude.Text.{Str, codes}
use chalk_metrics.Worker.{Call, export, export_raw_points}

-- The source is another error, which shows itself as a text.
pub record ExportError : Type 0 where
  pub message : Str
  pub source : Option Str

-- `ExportError::new` and `ExportError::with_source`
unfoldable pub new_error : Str → ExportError
new_error message = record { message = message; source = none }

unfoldable pub with_source : Str → Str → ExportError
with_source message source = record { message = message; source = some source }

-- Its `Display`.
unfoldable pub error_text : ExportError → Str
error_text e = elim e.source [ none ↦ e.message | some src ↦ e.message ++ codes ": " ++ src ]

-- `HistogramExportMode::default`; the percentiles 0.5, 0.9, 0.95 and 0.99 are given.
unfoldable pub default_mode : {F : Type 0} → List F → HistogramExportMode F
default_mode default_percentiles = percentiles default_percentiles

module _ ⦃fl : Float⦄ where
  open fl use {F}

  -- `StatsdExporter` never returns an error.
  unfoldable pub serve_statsd : StatsdExporter F → Call F → Wire → Outcome Wire
  serve_statsd e (export metrics) w = send_metrics e metrics w
  serve_statsd e (export_raw_points points) w = ok (send_raw_points e points w)

  -- `PrometheusExporter` drops raw points, as the trait does by default.
  unfoldable pub serve_prometheus : PrometheusExporter F → Call F → Outcome (PrometheusExporter F)
  serve_prometheus e (export metrics) = Prometheus.export e metrics
  serve_prometheus e (export_raw_points points) = ok e

  -- The calls of the worker, one after another.
  unfoldable pub serve_all : StatsdExporter F → List (Call F) → Wire → Outcome Wire
  unfolding serve_statsd
  serve_all e [] w = ok w
  serve_all e (c ∷ calls) w = serve_statsd e c w >>= serve_all e calls

  -- `text_handle` and `render_metrics`
  unfoldable pub text_handle : PrometheusExporter F → Str
  text_handle e = e.latest

  unfoldable pub render_metrics : PrometheusExporter F → List (FlushedMetric F) → Outcome Str
  render_metrics e metrics = Prometheus.render e metrics
