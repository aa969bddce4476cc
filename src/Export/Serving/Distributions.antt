-- ===== src/Export/Serving/Distributions.antt =====
-- src/export/statsd.rs behind src/worker.rs: the raw points that a receiver reads, where the
-- histograms are sent as percentiles.
use mathlib.Core.List.{map-append}
use chalk_metrics.Aggregator.{FlushedMetric, FlushedValue, RawDistributionPoint}
use chalk_metrics.Deps.{Channel, HashTable}
use chalk_metrics.Export.Serving.Read.{AreOfCalls}
use chalk_metrics.Export.Statsd.{percentiles, StatsdExporter, full_name}
use chalk_metrics.Export.Statsd.Reading.{Sample}
use chalk_metrics.Export.Statsd.Samples.{
  AreQuantiles, AreOfMode, AreOfValue, AreOfMetrics, sample_of_point,
}
use chalk_metrics.Float.{Float}
use chalk_metrics.Prelude.{
  ◌≡◌, refl, sym, ap, ◌∙◌, List, [], ◌∷◌, ◌++◌, map, ◌==◌, nat_eq, Bool, false, if◌then◌else◌, inl,
  inr, Bool-cases, subst,
}
use chalk_metrics.Prelude.Text.{Str}
use chalk_metrics.Sketch.Udd.{UddSketch}
use chalk_metrics.Worker.{Call, export, export_raw_points}
use chalk_metrics.Worker.System.Points.{points_in}

-- The kind of a raw point is `d`.
abbrev is_d : Str → Bool
is_d [] = false
is_d (x ∷ []) = x == b'd'
is_d (x ∷ y ∷ s) = false

abbrev pub distributions : List Sample → List Sample
distributions [] = []
distributions (s ∷ samples) =
    let rest = distributions samples in if is_d s.kind then s ∷ rest else rest

distributions-append :
    (l m : List Sample) → distributions (l ++ m) ≡ distributions l ++ distributions m
distributions-append [] m = refl
distributions-append (s ∷ l) m = elim (Bool-cases (is_d s.kind)) [
  | inl x ↦ rw x (ap (◌∷◌ s) (distributions-append l m))
  | inr x ↦ rw x (distributions-append l m)
]

module _ ⦃fl : Float⦄ ⦃ht : HashTable⦄ ⦃ch : Channel⦄ where
  open fl use {F}

  quantiles-distributions :
      (sketch : UddSketch F) (name : Str) (tags : List (Str × Str)) (ps : List F)
      (samples : List Sample)
      → AreQuantiles sketch name tags ps samples
      → distributions samples ≡ []
  quantiles-distributions sketch name tags [] samples h = ap distributions h
  quantiles-distributions sketch name tags (p ∷ ps) samples (v, rest, _, same, h) =
      ap distributions same ∙ quantiles-distributions sketch name tags ps rest h

  module _ (e : StatsdExporter F) (ps : List F) (mode : e.histogram_mode ≡ percentiles ps) where
    value-distributions :
        (v : FlushedValue F) (name : Str) (tags : List (Str × Str)) (samples : List Sample)
        → AreOfValue e v name tags samples
        → distributions samples ≡ []
    value-distributions (FlushedValue.count value) name tags samples h = ap distributions h
    value-distributions (FlushedValue.gauge value) name tags samples h = ap distributions h
    value-distributions (FlushedValue.histogram sketch) name tags samples h =
        let (rest, same, quantiles) = subst (λ m. AreOfMode m sketch name tags samples) mode h in
        ap distributions same ∙ quantiles-distributions sketch name tags ps rest quantiles

    metrics-distributions :
        (ms : List (FlushedMetric F)) (samples : List Sample)
        → AreOfMetrics e ms samples
        → distributions samples ≡ []
    metrics-distributions [] samples h = ap distributions h
    metrics-distributions (m ∷ ms) samples (first, rest, same, a, b) =
        ap distributions same
        ∙ distributions-append first rest
        ∙ ap (λ x. x ++ distributions rest)
            (value-distributions m.value (full_name e m.namespace m.metric_name.text)
              (e.default_tags ++ m.tags.pairs) first a)
        ∙ metrics-distributions ms rest b

    points-distributions :
        (points : List (RawDistributionPoint F))
        → distributions (map (sample_of_point e) points) ≡ map (sample_of_point e) points
    points-distributions [] = refl
    points-distributions (p ∷ points) = ap (◌∷◌ (sample_of_point e p)) (points-distributions points)

    -- The distributions in the samples of the calls are those of their raw points.
    pub calls-distributions :
        (calls : List (Call F)) (samples : List Sample)
        → AreOfCalls e calls samples
        → distributions samples ≡ map (sample_of_point e) (points_in calls)
    calls-distributions [] samples h = ap distributions h
    calls-distributions (export metrics ∷ calls) samples (first, rest, same, a, b) =
        ap distributions same
        ∙ distributions-append first rest
        ∙ ap (λ x. x ++ distributions rest) (metrics-distributions metrics first a)
        ∙ calls-distributions calls rest b
    calls-distributions (export_raw_points points ∷ calls) samples (first, rest, same, a, b) =
        ap distributions same
        ∙ distributions-append first rest
        ∙ ap (λ x. x ++ distributions rest) (ap distributions a ∙ points-distributions points)
        ∙ ap (λ x. map (sample_of_point e) points ++ x) (calls-distributions calls rest b)
        ∙ sym (map-append (sample_of_point e) points (points_in calls))
