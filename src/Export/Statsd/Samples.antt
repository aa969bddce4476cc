-- ===== src/Export/Statsd/Samples.antt =====
-- src/export/statsd.rs: what a receiver reads of the metrics that are sent.
use chalk_metrics.Aggregator.{FlushedMetric, FlushedValue, RawDistributionPoint}
use chalk_metrics.Export.Statsd.{
  HistogramExportMode, percentiles, distribution, StatsdExporter, prefix_of, full_name,
  format_percentile_label,
}
use chalk_metrics.Export.Statsd.Reading.{Sample, IsPlain, IsTag, IsSample, line_of}
use chalk_metrics.Float.{Float}
use chalk_metrics.Prelude.{
  ◌≡◌, refl, ap, true, ◌&&◌, List, [], ◌∷◌, ◌++◌, map, Option, none, some, All, ok,
}
use chalk_metrics.Prelude.Text.{Str, codes, show_u64, show_i64}
use chalk_metrics.Sketch.Links.Represents.{Buckets}
use chalk_metrics.Sketch.Udd.{UddSketch, mean, estimate_quantile}
use chalk_metrics.Sketch.Udd.Values.{IsSketch}

abbrev pub AreSamples : List Sample → Type 0
AreSamples l = All IsSample l

-- The lines that are those of samples that can be read back, of which `P` holds.
abbrev pub Written : (List Sample → Type 0) → List Str → Type 0
Written P lines =
    (samples : List Sample) × (lines ≡ map line_of samples) × AreSamples samples × P samples

pub lines_append : (l m : List Sample) → map line_of (l ++ m) ≡ map line_of l ++ map line_of m
lines_append [] m = refl
lines_append (s ∷ l) m = ap (◌∷◌ (line_of s)) (lines_append l m)

abbrev pub IsPrefix : Option Str → Type 0
IsPrefix none = Unit {0}
IsPrefix (some s) = IsPlain s

pub prefix_parts : (o : Option Str) → IsPrefix o → All IsPlain (prefix_of o)
unfolding prefix_of
prefix_parts none h = tt
prefix_parts (some s) h = (h, tt)

module _ ⦃fl : Float⦄ where
  open fl use {F}

  -- The text of a float is digits, a point, a sign, or a word.
  abbrev pub IsDisplayed : Type 0
  IsDisplayed = (x : F) → IsPlain (fl.display x)

  -- The quantiles of the mode are between 0 and 1.
  abbrev pub IsMode : HistogramExportMode F → Type 0
  IsMode distribution = Unit {0}
  IsMode (percentiles ps) = All (λ p. (fl.le fl.zero p && fl.le p fl.one) ≡ true) ps

  -- The names and the tags of the exporter can be read back, and its mode is in range.
  pub record IsWritable (e : StatsdExporter F) : Type 0 where
    pub namespace : IsPrefix e.namespace
    pub default_tags : All IsTag e.default_tags
    pub mode : IsMode e.histogram_mode

  abbrev pub IsValue : FlushedValue F → Type 0
  IsValue (FlushedValue.count value) = Unit {0}
  IsValue (FlushedValue.gauge value) = Unit {0}
  IsValue (FlushedValue.histogram sketch) = (l : Buckets) × IsSketch sketch l

  -- So can those of the metric, and its sketch is in order.
  pub record IsExportable (m : FlushedMetric F) : Type 0 where
    pub namespace : All IsPlain m.namespace
    pub metric_name : IsPlain m.metric_name.text
    pub tags : All IsTag m.tags.pairs
    pub value : IsValue m.value

  abbrev pub sample_of : Str → Str → Str → List (Str × Str) → Sample
  sample_of name value kind tags = record { name = name; value = value; kind = kind; tags = tags }

  -- A gauge for each quantile, named with its label.
  abbrev pub AreQuantiles : UddSketch F → Str → List (Str × Str) → List F → List Sample → Type 0
  AreQuantiles sketch name tags [] samples = samples ≡ []
  AreQuantiles sketch name tags (p ∷ ps) samples =
      (v : F) × (rest : List Sample) × (estimate_quantile sketch p ≡ ok v)
      × (samples
          ≡ sample_of (name ++ codes "." ++ format_percentile_label p) (fl.display v) (codes "g")
              tags
            ∷ rest)
      × AreQuantiles sketch name tags ps rest

  abbrev pub AreOfMode :
      HistogramExportMode F → UddSketch F → Str → List (Str × Str) → List Sample → Type 0
  AreOfMode distribution sketch name tags samples =
      samples ≡ sample_of name (fl.display (mean sketch)) (codes "d") tags ∷ []
  AreOfMode (percentiles ps) sketch name tags samples =
      (rest : List Sample) × (samples
        ≡ sample_of (name ++ codes ".count") (show_u64 sketch.num_values) (codes "g") tags
          ∷ sample_of (name ++ codes ".avg") (fl.display (mean sketch)) (codes "g") tags
          ∷ rest)
      × AreQuantiles sketch name tags ps rest

  abbrev pub AreOfValue :
      StatsdExporter F → FlushedValue F → Str → List (Str × Str) → List Sample → Type 0
  AreOfValue e (FlushedValue.count value) name tags samples =
      samples ≡ sample_of name (show_i64 value) (codes "c") tags ∷ []
  AreOfValue e (FlushedValue.gauge value) name tags samples =
      samples ≡ sample_of name (fl.display value) (codes "g") tags ∷ []
  AreOfValue e (FlushedValue.histogram sketch) name tags samples =
      AreOfMode e.histogram_mode sketch name tags samples

  -- The samples of one metric: its full name, and the tags of the exporter and its own.
  abbrev pub AreOfMetric : StatsdExporter F → FlushedMetric F → List Sample → Type 0
  AreOfMetric e m samples =
      AreOfValue e m.value (full_name e m.namespace m.metric_name.text)
        (e.default_tags ++ m.tags.pairs) samples

  -- The samples of the metrics, one metric after another.
  abbrev pub AreOfMetrics : StatsdExporter F → List (FlushedMetric F) → List Sample → Type 0
  AreOfMetrics e [] samples = samples ≡ []
  AreOfMetrics e (m ∷ ms) samples =
      (first : List Sample) × (rest : List Sample) × (samples ≡ first ++ rest)
      × AreOfMetric e m first
      × AreOfMetrics e ms rest

  -- The sample of a raw point.
  abbrev pub sample_of_point : StatsdExporter F → RawDistributionPoint F → Sample
  sample_of_point e p =
      sample_of (full_name e p.namespace p.metric_name.text) (fl.display p.value) (codes "d")
        (e.default_tags ++ p.tags.pairs)

  -- The names and the tags of a point can be read back.
  pub record IsExportablePoint (p : RawDistributionPoint F) : Type 0 where
    pub namespace : All IsPlain p.namespace
    pub metric_name : IsPlain p.metric_name.text
    pub tags : All IsTag p.tags.pairs
