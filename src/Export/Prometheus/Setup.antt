-- ===== src/Export/Prometheus/Setup.antt =====
-- src/export/prometheus.rs: `PrometheusExporterBuilder`.
use chalk_metrics.Export.Prometheus.{PrometheusExporter}
use chalk_metrics.Prelude.{List, [], Option, none, some}
use chalk_metrics.Prelude.Text.{Str}

pub record PrometheusExporterBuilder (F : Type 0) : Type 0 where
  pub namespace : Option Str
  pub bucket_boundaries : List F

module _ {F : Type 0} where
  -- `DEFAULT_BUCKET_BOUNDARIES` is given.
  unfoldable pub default_builder : List F → PrometheusExporterBuilder F
  default_builder boundaries = record { namespace = none; bucket_boundaries = boundaries }

  unfoldable pub prefixed : PrometheusExporterBuilder F → Str → PrometheusExporterBuilder F
  prefixed b ns = record b { namespace = some ns }

  unfoldable pub with_boundaries :
      PrometheusExporterBuilder F → List F → PrometheusExporterBuilder F
  with_boundaries b boundaries = record b { bucket_boundaries = boundaries }

  unfoldable pub build_exporter : PrometheusExporterBuilder F → PrometheusExporter F
  build_exporter b = record {
    namespace = b.namespace;
    bucket_boundaries = b.bucket_boundaries;
    latest = [];
  }
