-- ===== src/Export/Prometheus/Samples.antt =====
-- src/export/prometheus.rs: the lines of a histogram, as samples with a suffix, labels and a value.
use chalk_metrics.Aggregator.{FlushedValue}
use chalk_metrics.Export.Prometheus.{
  PrometheusExporter, format_tags, inner_tags, but_last, pair_text, bucket_line, bucket_lines,
  format_le, header, line, render_value,
}
use chalk_metrics.Export.Prometheus.Counts.{AreRising, boundaries, bucket_counts-AreRising}
use chalk_metrics.Float.{Float}
use chalk_metrics.Prelude.{
  ℕ, ◌≡◌, refl, ap, ◌∙◌, List, [], ◌∷◌, ◌++◌, map, append_assoc, append-nil, ok, Returns,
}
use mathlib.Core.List.{map-append}
use chalk_metrics.Prelude.Text.{Str, codes, join, join-snoc, show_u64}
use chalk_metrics.Sketch.Links.Represents.{Buckets, Represents}
use chalk_metrics.Sketch.Udd.{UddSketch}

but_last-snoc : (s : Str) (c : ℕ) → but_last (s ++ c ∷ []) ≡ s
but_last-snoc [] c = refl
but_last-snoc (d ∷ []) c = refl
but_last-snoc (d ∷ e ∷ s) c = ap (◌∷◌ d) (but_last-snoc (e ∷ s) c)

regroup : (h b i s c : Str) → h ++ b ++ i ++ s ++ c ≡ h ++ (b ++ (i ++ (s ++ (c ++ []))))
regroup h b i s c = simp (append_assoc, append-nil)

-- A sample of a metric: the suffix of its name, its labels and its value.
pub record Sample : Type 0 where
  pub suffix : Str
  pub labels : List (Str × Str)
  pub value : Str

abbrev pub sample_line : Str → Sample → Str
sample_line name s = line (name ++ s.suffix ++ format_tags s.labels ++ codes " " ++ s.value)

abbrev pub sample_lines : Str → List Sample → Str
sample_lines name [] = []
sample_lines name (s ∷ l) = sample_line name s ++ sample_lines name l

abbrev pub bucket_sample : List (Str × Str) → Str → ℕ → Sample
bucket_sample labels le n = record {
  suffix = codes "_bucket";
  labels = labels ++ (codes "le", le) ∷ [];
  value = show_u64 n;
}

-- The boundary goes behind the labels, though the code cuts it into their text.
bucket_line-sample :
    (name : Str) (labels : List (Str × Str)) (le : Str) (n : ℕ)
    → bucket_line name (format_tags labels) le n ≡ sample_line name (bucket_sample labels le n)
unfolding bucket_line format_tags inner_tags join
bucket_line-sample name [] le n = simp append_assoc
bucket_line-sample name (p ∷ labels) le n =
    let inner = join (codes ",") (pair_text p ∷ map pair_text labels) in
    rw (but_last-snoc inner b'}') (
      rw (map-append pair_text labels ((codes "le", le) ∷ [])) (
        rw (join-snoc (codes ",") (pair_text p) (map pair_text labels) (pair_text (codes "le", le)))
          (simp append_assoc)))

module _ ⦃fl : Float⦄ where
  open fl use {F}

  -- The samples of the boundaries with their counts.
  abbrev pub bucket_samples : List (Str × Str) → List (F × ℕ) → List Sample
  bucket_samples labels [] = []
  bucket_samples labels ((le, n) ∷ l) =
      bucket_sample labels (format_le le) n ∷ bucket_samples labels l

  -- The samples of a histogram: the boundaries, the one without a bound, the sum and the count.
  abbrev pub histogram_samples : List (Str × Str) → UddSketch F → List (F × ℕ) → List Sample
  histogram_samples labels sketch counts =
      bucket_samples labels counts
      ++ (bucket_sample labels (codes "+Inf") sketch.num_values
          ∷ record { suffix = codes "_sum"; labels = labels; value = fl.display sketch.values_sum }
          ∷ record { suffix = codes "_count"; labels = labels; value = show_u64 sketch.num_values }
          ∷ [])

  bucket_lines-samples :
      (name : Str) (labels : List (Str × Str)) (counts : List (F × ℕ)) (rest : List Sample)
      → bucket_lines name (format_tags labels) counts ++ sample_lines name rest
        ≡ sample_lines name (bucket_samples labels counts ++ rest)
  unfolding bucket_lines
  bucket_lines-samples name labels [] rest = refl
  bucket_lines-samples name labels ((le, n) ∷ l) rest =
      append_assoc (bucket_line name (format_tags labels) (format_le le) n)
        (bucket_lines name (format_tags labels) l) (sample_lines name rest)
      ∙ ap (λ x. x ++ (bucket_lines name (format_tags labels) l ++ sample_lines name rest))
          (bucket_line-sample name labels (format_le le) n)
      ∙ ap (λ x. sample_line name (bucket_sample labels (format_le le) n) ++ x)
          (bucket_lines-samples name labels l rest)

  -- On a sketch whose map represents a sorted list of buckets a histogram is rendered without a
  -- panic: behind its `# HELP` and `# TYPE` lines stand one `_bucket` sample for each boundary, in
  -- their order, with counts that never fall, one for `+Inf` with the number of values, the sum
  -- and the count. Each has the labels of the metric in front, and `le` behind them in a bucket.
  pub render_value-samples :
      (e : PrometheusExporter F) (sketch : UddSketch F) (l : Buckets) (name : Str)
      (labels : List (Str × Str))
      → Represents sketch.buckets l
      → Returns (render_value e (FlushedValue.histogram sketch) name (format_tags labels)) λ text.
        (counts : List (F × ℕ)) × (text
          ≡ line (codes "# HELP " ++ name ++ codes " " ++ name)
            ++ line (codes "# TYPE " ++ name ++ codes " " ++ codes "histogram")
            ++ sample_lines name (histogram_samples labels sketch counts))
        × AreRising 0 counts
        × (boundaries counts ≡ e.bucket_boundaries)
  unfolding render_value
  render_value-samples e sketch l name labels rep =
      let (counts, run, (rising, same)) =
        bucket_counts-AreRising sketch l 0 e.bucket_boundaries rep in
      let n = sketch.num_values in
      let last =
        record { suffix = codes "_sum"; labels = labels; value = fl.display sketch.values_sum }
        ∷ record { suffix = codes "_count"; labels = labels; value = show_u64 n }
        ∷ [] in
      let tags = format_tags labels in
      let begin = header name (codes "histogram") in
      let lines_eq : begin
            ++ bucket_lines name tags counts
            ++ bucket_line name tags (codes "+Inf") n
            ++ line (name ++ codes "_sum" ++ tags ++ codes " " ++ fl.display sketch.values_sum)
            ++ line (name ++ codes "_count" ++ tags ++ codes " " ++ show_u64 n)
          ≡ begin ++ sample_lines name (histogram_samples labels sketch counts) =
        regroup begin (bucket_lines name tags counts) (bucket_line name tags (codes "+Inf") n)
          (line (name ++ codes "_sum" ++ tags ++ codes " " ++ fl.display sketch.values_sum))
          (line (name ++ codes "_count" ++ tags ++ codes " " ++ show_u64 n))
        ∙ ap (λ x. begin ++ (bucket_lines name tags counts ++ (x ++ sample_lines name last)))
            (bucket_line-sample name labels (codes "+Inf") n)
        ∙ ap (λ x. begin ++ x)
            (bucket_lines-samples name labels counts
              (bucket_sample labels (codes "+Inf") n ∷ last)) in
      (
        begin ++ sample_lines name (histogram_samples labels sketch counts),
        rw run (ap ok lines_eq),
        (counts, refl, rising, same),
      )
