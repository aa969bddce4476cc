-- ===== src/Export/Statsd/Counts.antt =====
-- src/export/statsd.rs: the counts that a receiver adds up, against those that were exported.
use chalk_metrics.Aggregator.{FlushedMetric, FlushedValue, RawDistributionPoint}
use chalk_metrics.Aggregator.Drained.{count_in, exported_counts, exported_counts-IsI64}
use chalk_metrics.Deps.{Channel, HashTable}
use chalk_metrics.Export.Statsd.{
  HistogramExportMode, percentiles, distribution, StatsdExporter, full_name,
}
use chalk_metrics.Export.Statsd.Numbers.{read_i64, read_i64-show_i64}
use chalk_metrics.Export.Statsd.Reading.{Sample}
use chalk_metrics.Export.Statsd.Samples.{
  AreQuantiles, AreOfMode, AreOfValue, AreOfMetrics, sample_of_point,
}
use chalk_metrics.Float.{Float}
use chalk_metrics.Prelude.{
  ◌≡◌, refl, sym, ap, ◌∙◌, List, [], ◌∷◌, ◌++◌, map, Option, none, some, ◌==◌, nat_eq, Bool, false,
  if◌then◌else◌, All,
}
use chalk_metrics.Prelude.Int.{ℤ, pos, i64_add, IsI64}
use chalk_metrics.Prelude.Int.Residues.{i64_add_comm, i64_add_assoc, i64_add-zero}
use chalk_metrics.Prelude.Text.{Str}
use chalk_metrics.Sketch.Udd.{UddSketch}

-- The kind of a count is `c`.
abbrev is_c : Str → Bool
is_c [] = false
is_c (x ∷ []) = x == b'c'
is_c (x ∷ y ∷ s) = false

-- What a receiver adds to its sum of the counts.
abbrev count_read : Sample → Option ℤ
count_read s = if is_c s.kind then read_i64 s.value else some (pos 0)

abbrev add_read : Option ℤ → Option ℤ → Option ℤ
add_read none rest = none
add_read (some a) none = none
add_read (some a) (some b) = some (i64_add a b)

-- The sum of the counts, with wrap-around; none where one cannot be read.
abbrev pub counts_read : List Sample → Option ℤ
counts_read [] = some (pos 0)
counts_read (s ∷ samples) = add_read (count_read s) (counts_read samples)

-- Both have been read.
add_read_inv :
    (x y : Option ℤ) (a : ℤ)
    → add_read x y ≡ some a
    → (p : ℤ) × (q : ℤ) × (x ≡ some p) × (y ≡ some q) × (i64_add p q ≡ a)
add_read_inv none y a e = cc
add_read_inv (some p) none a e = cc
add_read_inv (some p) (some q) a e = (p, q, refl, refl, cc)

pub counts_read-append :
    (l m : List Sample) (a b : ℤ)
    → IsI64 b
    → counts_read l ≡ some a
    → counts_read m ≡ some b
    → counts_read (l ++ m) ≡ some (i64_add a b)
counts_read-append [] m a b i h k =
    let same : pos 0 ≡ a = cc in k ∙ ap some (sym (i64_add-zero b i) ∙ ap (λ x. i64_add x b) same)
counts_read-append (s ∷ l) m a b i h k =
    let (p, q, first, rest, same) = add_read_inv (count_read s) (counts_read l) a h in
    ap (add_read (count_read s)) (counts_read-append l m q b i rest k)
    ∙ ap (λ x. add_read x (some (i64_add q b))) first
    ∙ ap some (sym (i64_add_assoc p q b) ∙ ap (λ x. i64_add x b) same)

module _ ⦃fl : Float⦄ ⦃ht : HashTable⦄ ⦃ch : Channel⦄ where
  open fl use {F}

  quantiles-counts_read :
      (sketch : UddSketch F) (name : Str) (tags : List (Str × Str)) (ps : List F)
      (samples : List Sample)
      → AreQuantiles sketch name tags ps samples
      → counts_read samples ≡ some (pos 0)
  unfolding i64_add
  quantiles-counts_read sketch name tags [] samples h = ap counts_read h
  quantiles-counts_read sketch name tags (p ∷ ps) samples (v, rest, _, same, h) =
      ap counts_read same
      ∙ ap (add_read (some (pos 0))) (quantiles-counts_read sketch name tags ps rest h)

  mode-counts_read :
      (mode : HistogramExportMode F) (sketch : UddSketch F) (name : Str) (tags : List (Str × Str))
      (samples : List Sample)
      → AreOfMode mode sketch name tags samples
      → counts_read samples ≡ some (pos 0)
  unfolding i64_add
  mode-counts_read distribution sketch name tags samples h = ap counts_read h
  mode-counts_read (percentiles ps) sketch name tags samples (rest, same, h) =
      ap counts_read same
      ∙ ap (λ x. add_read (some (pos 0)) (add_read (some (pos 0)) x))
          (quantiles-counts_read sketch name tags ps rest h)

  value-counts_read :
      (e : StatsdExporter F) (v : FlushedValue F) (name : Str) (tags : List (Str × Str))
      (samples : List Sample)
      → IsI64 (count_in v)
      → AreOfValue e v name tags samples
      → counts_read samples ≡ some (count_in v)
  unfolding i64_add
  value-counts_read e (FlushedValue.count value) name tags samples i h =
      ap counts_read h
      ∙ ap (λ x. add_read x (some (pos 0))) (read_i64-show_i64 value i)
      ∙ ap some (i64_add_comm value (pos 0) ∙ i64_add-zero value i)
  value-counts_read e (FlushedValue.gauge value) name tags samples i h = ap counts_read h
  value-counts_read e (FlushedValue.histogram sketch) name tags samples i h =
      mode-counts_read e.histogram_mode sketch name tags samples h

  -- Every count is in the range of an `i64`.
  abbrev pub HasCounts : List (FlushedMetric F) → Type 0
  HasCounts ms = All (λ (m : FlushedMetric F). IsI64 (count_in m.value)) ms

  -- A receiver that adds up the counts in the samples of the metrics gets the exported counts.
  pub counts_read-exported_counts :
      (e : StatsdExporter F) (ms : List (FlushedMetric F)) (samples : List Sample)
      → HasCounts ms
      → AreOfMetrics e ms samples
      → counts_read samples ≡ some (exported_counts ms)
  counts_read-exported_counts e [] samples i h = ap counts_read h
  counts_read-exported_counts e (m ∷ ms) samples i (first, rest, same, a, b) =
      ap counts_read same
      ∙ counts_read-append first rest (count_in m.value) (exported_counts ms)
          (exported_counts-IsI64 ms)
          (value-counts_read e m.value (full_name e m.namespace m.metric_name.text)
            (e.default_tags ++ m.tags.pairs) first i.0 a)
          (counts_read-exported_counts e ms rest i.1 b)

  -- A raw point is no count.
  pub points-counts_read :
      (e : StatsdExporter F) (points : List (RawDistributionPoint F))
      → counts_read (map (sample_of_point e) points) ≡ some (pos 0)
  unfolding i64_add
  points-counts_read e [] = refl
  points-counts_read e (p ∷ points) = ap (add_read (some (pos 0))) (points-counts_read e points)
