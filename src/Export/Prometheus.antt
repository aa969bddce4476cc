-- ===== src/Export/Prometheus.antt =====
-- src/export/prometheus.rs: the Prometheus text format.
pub mod Counts
pub mod Setup
pub mod Samples
use chalk_metrics.Aggregator.{FlushedMetric, FlushedValue}
use chalk_metrics.Float.{Float}
use chalk_metrics.Prelude.{
  ℕ, Bool, true, false, ◌&&◌, List, [], ◌∷◌, ◌++◌, map, Option, none, some, if◌then◌else◌, leb,
  Outcome, ok, ◌>>=◌,
}
use chalk_metrics.Prelude.Text.{Str, codes, join, show_u64, show_i64}
use chalk_metrics.Sketch.Udd.{UddSketch, estimate_quantile_at_value}

pub record PrometheusExporter (F : Type 0) : Type 0 where
  pub namespace : Option Str
  pub bucket_boundaries : List F
  pub latest : Str

abbrev is_empty {ℓ} : {A : Type ℓ} → List A → Bool
is_empty [] = true
is_empty (x ∷ l) = false

abbrev prefix_of : Option Str → List Str
prefix_of none = []
prefix_of (some ns) = ns ∷ []

abbrev pub pair_text : Str × Str → Str
pair_text (k, v) = k ++ codes "=\"" ++ v ++ codes "\""

unfoldable pub format_tags : List (Str × Str) → Str
format_tags pairs =
    if is_empty pairs then [] else codes "{" ++ join (codes ",") (map pair_text pairs) ++ codes "}"

abbrev but_last : Str → Str
but_last [] = []
but_last (c ∷ []) = []
but_last (c ∷ d ∷ s) = c ∷ but_last (d ∷ s)

-- `&tags_str[1..tags_str.len() - 1]`
unfoldable pub inner_tags : Str → Str
inner_tags [] = []
inner_tags (c ∷ s) = but_last s

-- `writeln!`
abbrev pub line : Str → Str
line s = s ++ codes "\n"

-- One `_bucket` line, with the boundary inserted into the tags.
unfoldable pub bucket_line : Str → Str → Str → ℕ → Str
bucket_line name tags_str le_str count =
    if is_empty tags_str
    then line (name ++ codes "_bucket{le=\"" ++ le_str ++ codes "\"} " ++ show_u64 count)
    else line (
        name
        ++ codes "_bucket{"
        ++ inner_tags tags_str
        ++ codes ",le=\""
        ++ le_str
        ++ codes "\"} "
        ++ show_u64 count)

-- `cumulative.max(bucket_count)`
abbrev max_u64 : ℕ → ℕ → ℕ
max_u64 a b = if leb a b then b else a

module _ ⦃fl : Float⦄ where
  open fl use {F}

  unfoldable pub full_name : PrometheusExporter F → List Str → Str → Str
  full_name e namespace metric_name =
      join (codes "_") (prefix_of e.namespace ++ namespace ++ metric_name ∷ [])

  unfoldable pub format_le : F → Str
  format_le le =
      if fl.eq le (fl.floor le) && fl.lt (fl.abs le) fl.le_limit
      then show_i64 (fl.to_i64 le)
      else fl.display le

  -- The counts of the boundaries, each at least the one before.
  unfoldable pub bucket_counts : UddSketch F → ℕ → List F → Outcome (List (F × ℕ))
  bucket_counts sketch cumulative [] = ok []
  bucket_counts sketch cumulative (le ∷ les) = do
    quantile_at ← estimate_quantile_at_value sketch le
    let bucket_count = fl.to_u64 (fl.round (fl.mul quantile_at (fl.of_u64 sketch.num_values)))
    let next = max_u64 cumulative bucket_count
    rest ← bucket_counts sketch next les
    ok ((le, next) ∷ rest)

  unfoldable pub bucket_lines : Str → Str → List (F × ℕ) → Str
  bucket_lines name tags_str [] = []
  bucket_lines name tags_str ((le, n) ∷ l) =
      bucket_line name tags_str (format_le le) n ++ bucket_lines name tags_str l

  header : Str → Str → Str
  header name kind =
      line (codes "# HELP " ++ name ++ codes " " ++ name)
      ++ line (codes "# TYPE " ++ name ++ codes " " ++ kind)

  unfoldable pub render_value : PrometheusExporter F → FlushedValue F → Str → Str → Outcome Str
  unfolding header
  render_value e (FlushedValue.count value) name tags_str = ok (
      line (codes "# HELP " ++ name ++ codes "_total " ++ name)
      ++ line (codes "# TYPE " ++ name ++ codes "_total counter")
      ++ line (name ++ codes "_total" ++ tags_str ++ codes " " ++ show_i64 value))
  render_value e (FlushedValue.gauge value) name tags_str =
      ok (header name (codes "gauge") ++ line (name ++ tags_str ++ codes " " ++ fl.display value))
  render_value e (FlushedValue.histogram sketch) name tags_str = do
    counts ← bucket_counts sketch 0 e.bucket_boundaries
    ok (
        header name (codes "histogram")
        ++ bucket_lines name tags_str counts
        ++ bucket_line name tags_str (codes "+Inf") sketch.num_values
        ++ line (name ++ codes "_sum" ++ tags_str ++ codes " " ++ fl.display sketch.values_sum)
        ++ line (name ++ codes "_count" ++ tags_str ++ codes " " ++ show_u64 sketch.num_values))

  unfoldable pub render : PrometheusExporter F → List (FlushedMetric F) → Outcome Str
  render e [] = ok []
  render e (m ∷ ms) = do
    text ←
        render_value e m.value (full_name e m.namespace m.metric_name.text)
          (format_tags m.tags.pairs)
    rest ← render e ms
    ok (text ++ rest)

  -- The text of the last export is kept for `get_metrics_text`.
  unfoldable pub export :
      PrometheusExporter F → List (FlushedMetric F) → Outcome (PrometheusExporter F)
  export e metrics = do text ← render e metrics; ok (record e { latest = text })

  unfoldable pub get_metrics_text : PrometheusExporter F → Str
  get_metrics_text e = e.latest
