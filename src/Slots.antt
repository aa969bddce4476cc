-- ===== src/Slots.antt =====
-- src/aggregator/count.rs, gauge.rs and histogram.rs: the three kinds of slots. The atomics and the
-- mutex make each operation one step.
pub mod Count
pub mod Gauge
pub mod Histogram
