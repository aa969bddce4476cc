-- ===== src/Slots/Histogram/Values.antt =====
-- src/aggregator/histogram.rs: what holds of a histogram slot, and one more value in it.
use chalk_metrics.Float.{Float, IsFloat}
use chalk_metrics.Prelude.{ℕ, ◌≤◌, ◌≡◌, refl, ◌∙◌, [], inl, inr, true, ◌&&◌, ◌⊎◌, Returns, arith}
use chalk_metrics.Sketch.Links.Represents.{Buckets}
use chalk_metrics.Sketch.Udd.Values.{IsSketch, Adds, add_value-IsSketch, new_sketch-IsSketch}
use chalk_metrics.Slots.Histogram.{
  HistogramSlot, new_histogram, record_histogram_slot, flush_histogram,
}

module _ ⦃fl : Float⦄ where
  open fl use {F}

  -- The settings with which a new sketch can be made and shrunk.
  pub record AreSettings (max_buckets : ℕ) (initial_error : F) : Type 0 where
    pub room : 7 ≤ max_buckets
    pub error_range : (fl.le fl.smallest_error initial_error && fl.lt initial_error fl.one) ≡ true

  -- A histogram slot over a sketch in order.
  pub record IsHistogram (s : HistogramSlot F) (l : Buckets) : Type 0 where
    pub sketch : IsSketch s.sketch l
    pub settings : AreSettings s.max_buckets s.initial_error
    pub same_room : s.sketch.max_buckets ≡ s.max_buckets

  -- One more value in a slot: a NaN changes nothing.
  abbrev pub Observes : HistogramSlot F → F → HistogramSlot F → Type 0
  Observes s v r =
      ((fl.is_nan v ≡ true) × (r.sketch ≡ s.sketch))
      ⊎ ((l : Buckets) × (l' : Buckets) × Adds s.sketch l v r.sketch l')

  pub record_histogram_slot-Observes :
      IsFloat fl
      → (fuel : ℕ) (s : HistogramSlot F) (l : Buckets) (v : F) → 65 ≤ fuel
      → IsHistogram s l
      → Returns
          (record_histogram_slot fuel s v)
          λ r. Observes s v r × ((l' : Buckets) × IsHistogram r l')
  unfolding record_histogram_slot
  record_histogram_slot-Observes law fuel s l v f h =
      elim (add_value-IsSketch law fuel s.sketch l v f (omega (arith, h.settings.room, h.same_room))
        h.sketch) [
          | inl (nan, run) ↦ (s, rw run, (inl (nan, refl), (l, h)))
          | inr (number, (t, run, (l', a))) ↦ (
            record s { sketch = t },
            rw run,
            (
              inr (l, l', a),
              (
                l',
                record {
                  sketch = a.sketch;
                  settings = h.settings;
                  same_room = a.max_buckets ∙ h.same_room;
                },
              ),
            ),
          )
        ]

  pub new_histogram-IsHistogram :
      (max_buckets : ℕ) (initial_error : F)
      → AreSettings max_buckets initial_error
      → Returns
          (new_histogram max_buckets initial_error)
          λ s. IsHistogram s [] × (s.sketch.num_values ≡ 0)
  unfolding new_histogram
  new_histogram-IsHistogram max_buckets initial_error h =
      let (s, run, (sketch, empty, same)) =
        new_sketch-IsSketch max_buckets initial_error h.error_range in
      (
        record { sketch = s; max_buckets = max_buckets; initial_error = initial_error },
        rw run,
        (record { sketch = sketch; settings = h; same_room = same }, empty),
      )

  -- A flush gives the sketch away and leaves the slot with a new one.
  pub flush_histogram-IsHistogram :
      (s : HistogramSlot F) (l : Buckets)
      → IsHistogram s l
      → Returns
          (flush_histogram s)
          λ r. (r.0 ≡ s.sketch) × IsHistogram r.1 [] × (r.1.sketch.num_values ≡ 0)
  unfolding flush_histogram
  flush_histogram-IsHistogram s l h =
      let (t, run, (sketch, empty, same)) =
        new_sketch-IsSketch s.max_buckets s.initial_error h.settings.error_range in
      (
        (s.sketch, record s { sketch = t }),
        rw run,
        (refl, record { sketch = sketch; settings = h.settings; same_room = same }, empty),
      )
