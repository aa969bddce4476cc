-- ===== src/Export.antt =====
-- src/export: the two exporters.
pub mod Statsd
pub mod Prometheus
pub mod Serving
