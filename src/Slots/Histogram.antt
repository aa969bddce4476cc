-- ===== src/Slots/Histogram.antt =====
-- src/aggregator/histogram.rs: `HistogramSlot`, a sketch that a flush replaces by a fresh one.
pub mod Values
use chalk_metrics.Float.{Float}
use chalk_metrics.Prelude.{ℕ, Outcome, ok, ◌>>=◌}
use chalk_metrics.Sketch.Udd.{UddSketch, new_sketch, add_value}

pub record HistogramSlot (F : Type 0) : Type 0 where
  pub sketch : UddSketch F
  pub max_buckets : ℕ
  pub initial_error : F

module _ ⦃fl : Float⦄ where
  open fl use {F}

  unfoldable pub new_histogram : ℕ → F → Outcome (HistogramSlot F)
  new_histogram max_buckets initial_error = do
    sketch ← new_sketch max_buckets initial_error
    ok (record { sketch = sketch; max_buckets = max_buckets; initial_error = initial_error })

  unfoldable pub record_histogram_slot : ℕ → HistogramSlot F → F → Outcome (HistogramSlot F)
  record_histogram_slot fuel s value = do
    sketch ← add_value fuel s.sketch value
    ok (record s { sketch = sketch })

  unfoldable pub flush_histogram : HistogramSlot F → Outcome (UddSketch F × HistogramSlot F)
  flush_histogram s = do
    fresh ← new_sketch s.max_buckets s.initial_error
    ok (s.sketch, record s { sketch = fresh })

  -- `HistogramSlot::default`; 0.001 is given.
  unfoldable pub default_histogram : F → Outcome (HistogramSlot F)
  unfolding new_histogram
  default_histogram thousandth = new_histogram 200 thousandth
