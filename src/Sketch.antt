-- ===== src/Sketch.antt =====
-- src/aggregator/sketch.rs, the sketch of a distribution.
pub mod Key
pub mod Links
pub mod Udd
