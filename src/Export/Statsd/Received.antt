-- ===== src/Export/Statsd/Received.antt =====
-- src/export/statsd.rs: from flushed metrics to what a receiver reads in the datagrams.
use chalk_metrics.Aggregator.{FlushedMetric, FlushedValue, RawDistributionPoint}
use chalk_metrics.Export.Statsd.{
  StatsdExporter, Wire, is_empty, prefix_of, tag_text, full_name, format_tags, value_lines,
  metric_lines, all_lines, send_metrics, send_buffer, raw_line, send_raw_points,
  format_distribution_line,
}
use chalk_metrics.Export.Statsd.Batches.{Group, datagram, AreBatches, send_all}
use chalk_metrics.Export.Statsd.Datagrams.{read_datagrams, send_lines-read}
use chalk_metrics.Export.Statsd.Plain.{plain_join, plain_i64, plain_c, plain_g, plain_d, line_lem}
use chalk_metrics.Export.Statsd.Reading.{Sample, IsPlain, IsTag, IsSample, tags_text, line_of}
use chalk_metrics.Export.Statsd.Samples.{
  AreSamples, lines_append, prefix_parts, IsDisplayed, IsWritable, IsValue, IsExportable, sample_of,
  AreOfValue, AreOfMetric, AreOfMetrics, Written, IsExportablePoint, sample_of_point,
}
use chalk_metrics.Float.{Float}
use chalk_metrics.Prelude.{
  ◌≡◌, refl, sym, ap, ◌∙◌, List, [], ◌∷◌, ◌++◌, map, some, if◌then◌else◌, All, All-append, Returns,
}
use chalk_metrics.Prelude.Text.{Str, codes, join, show_i64}
use chalk_metrics.Export.Statsd.Written.{good_plain, histogram_lines-Written}

text_lem :
    (l : List (Str × Str))
    → (if is_empty l then [] else codes "|#" ++ join (codes ",") (map tag_text l)) ≡ tags_text l
unfolding is_empty
text_lem [] = refl
text_lem (t ∷ l) = refl

module _ ⦃fl : Float⦄ (shown : IsDisplayed) (e : StatsdExporter fl.F)
    (writable : IsWritable e) where
  open fl use {F}

  abbrev tags_of : FlushedMetric F → List (Str × Str)
  tags_of m = e.default_tags ++ m.tags.pairs

  abbrev name_of : FlushedMetric F → Str
  name_of m = full_name e m.namespace m.metric_name.text

  full_name-IsPlain :
      (namespace : List Str) (metric_name : Str)
      → All IsPlain namespace
      → IsPlain metric_name
      → IsPlain (full_name e namespace metric_name)
  unfolding full_name
  full_name-IsPlain namespace metric_name a b =
      plain_join (prefix_of e.namespace ++ namespace ++ metric_name ∷ []) (
        All-append IsPlain (prefix_of e.namespace ++ namespace) (metric_name ∷ [])
          (All-append IsPlain (prefix_of e.namespace) namespace
            (prefix_parts e.namespace writable.namespace) a)
          (b, tt))

  value_lines-Written :
      (name : Str) (tags : List (Str × Str)) (v : FlushedValue F)
      → IsPlain name
      → All IsTag tags
      → IsValue v
      → Returns (value_lines e v name (tags_text tags)) (Written (AreOfValue e v name tags))
  unfolding value_lines
  value_lines-Written name tags (FlushedValue.count value) named tagged h = (
    _,
    refl,
    (
      sample_of name (show_i64 value) (codes "c") tags ∷ [],
      ap (λ x. x ∷ []) (line_lem name (show_i64 value) (codes "c") (tags_text tags)),
      (
        good_plain shown name tags named tagged (show_i64 value) (codes "c") (plain_i64 value)
            plain_c,
        tt,
      ),
      refl,
    ),
  )
  value_lines-Written name tags (FlushedValue.gauge value) named tagged h = (
    _,
    refl,
    (
      sample_of name (fl.display value) (codes "g") tags ∷ [],
      ap (λ x. x ∷ []) (line_lem name (fl.display value) (codes "g") (tags_text tags)),
      (
        good_plain shown name tags named tagged (fl.display value) (codes "g") (shown value)
            plain_g,
        tt,
      ),
      refl,
    ),
  )
  value_lines-Written name tags (FlushedValue.histogram sketch) named tagged (l, inv) =
      histogram_lines-Written shown name tags named tagged e.histogram_mode sketch l inv
        writable.mode

  metric_lines-Written :
      (m : FlushedMetric F)
      → IsExportable m
      → Returns (metric_lines e m) (Written (AreOfMetric e m))
  unfolding metric_lines format_tags
  metric_lines-Written m h =
      let (lines, run, written) =
        value_lines-Written (name_of m) (tags_of m) m.value
          (full_name-IsPlain m.namespace m.metric_name.text h.namespace h.metric_name)
          (All-append IsTag e.default_tags m.tags.pairs writable.default_tags h.tags) h.value in
      (lines, ap (value_lines e m.value (name_of m)) (text_lem (tags_of m)) ∙ run, written)

  all_lines-Written :
      (ms : List (FlushedMetric F))
      → All IsExportable ms
      → Returns (all_lines e ms) (Written (AreOfMetrics e ms))
  unfolding all_lines
  all_lines-Written [] h = ([], refl, ([], refl, tt, refl))
  all_lines-Written (m ∷ ms) h =
      let (lines, run, (a, same, good, of_metric)) = metric_lines-Written m h.0 in
      let (rest, run', (b, same', good', of_metrics)) = all_lines-Written ms h.1 in
      (
        lines ++ rest,
        rw run (rw run' refl),
        (
          a ++ b,
          ap (λ x. x ++ rest) same ∙ ap (λ x. map line_of a ++ x) same' ∙ sym (lines_append a b),
          All-append IsSample a b good good',
          (a, b, refl, of_metric, of_metrics),
        ),
      )

  -- Let floats be displayed without colons, bars, commas and line feeds, let the names and the tags
  -- of the exporter and of the metrics have none either, but for a colon in the value of a tag, and
  -- let the quantiles be between 0 and 1 and the sketches in order. Then sending the metrics returns,
  -- without a panic: it sends datagrams that are batches of the lines, and a receiver that splits
  -- them and reads each line gets the samples of every metric, in their order, with its full name,
  -- its values, its kind, and the tags of the exporter and its own.
  pub send_metrics-read :
      (ms : List (FlushedMetric F)) (w : Wire)
      → All IsExportable ms
      → Returns (send_metrics e ms w) λ r.
        (gs : List Group) × (samples : List Sample) × (r ≡ send_all send_buffer gs w)
        × AreBatches e.max_buffer_size gs
        × (read_datagrams (map datagram gs) ≡ some samples)
        × AreOfMetrics e ms samples
  unfolding send_metrics
  send_metrics-read ms w h =
      let (lines, run, (samples, same, good, of_metrics)) = all_lines-Written ms h in
      let (gs, sent, batches, read) = send_lines-read e.max_buffer_size lines samples w same good in
      (_, rw run refl, (gs, samples, sent, batches, read, of_metrics))

  raw_lines-Written :
      (points : List (RawDistributionPoint F))
      → All IsExportablePoint points
      → (map (raw_line e) points ≡ map line_of (map (sample_of_point e) points))
        × AreSamples (map (sample_of_point e) points)
  unfolding raw_line format_tags format_distribution_line
  raw_lines-Written [] h = (refl, tt)
  raw_lines-Written (p ∷ points) (a, h) =
      let name = full_name e p.namespace p.metric_name.text in
      let tags = e.default_tags ++ p.tags.pairs in
      let (same, good) = raw_lines-Written points h in
      (
        ap
              (λ x.
                (name ++ codes ":" ++ fl.display p.value ++ codes "|d" ++ x)
                ∷ map (raw_line e) points)
              (text_lem tags)
            ∙ ap (λ x. x ∷ map (raw_line e) points)
                (line_lem name (fl.display p.value) (codes "d") (tags_text tags))
            ∙ ap (◌∷◌ (line_of (sample_of_point e p))) same,
        (
          good_plain shown name tags
              (full_name-IsPlain p.namespace p.metric_name.text a.namespace a.metric_name)
              (All-append IsTag e.default_tags p.tags.pairs writable.default_tags a.tags)
              (fl.display p.value) (codes "d") (shown p.value) plain_d,
          good,
        ),
      )

  -- Under the same conditions on the texts, raw points are sent in batches, and a receiver gets one
  -- sample for each, in their order.
  pub send_raw_points-read :
      (points : List (RawDistributionPoint F)) (w : Wire)
      → All IsExportablePoint points
      → (gs : List Group) × (send_raw_points e points w ≡ send_all send_buffer gs w)
        × AreBatches e.max_buffer_size gs
        × (read_datagrams (map datagram gs) ≡ some (map (sample_of_point e) points))
  unfolding send_raw_points
  send_raw_points-read points w h =
      let (same, good) = raw_lines-Written points h in
      send_lines-read e.max_buffer_size (map (raw_line e) points) (map (sample_of_point e) points) w
        same good
