-- ===== src/Export/Statsd/Written.antt =====
-- src/export/statsd.rs: the lines of a histogram as the texts of samples.
use chalk_metrics.Export.Statsd.{
  HistogramExportMode, percentiles, distribution, format_distribution_line, format_percentile_label,
  percentile_lines, histogram_lines,
}
use chalk_metrics.Export.Statsd.Plain.{
  plain_append, plain_dot, plain_g, plain_d, plain_count, plain_avg, plain_u64, plain_cons,
  plain_nil, line_lem,
}
use chalk_metrics.Export.Statsd.Reading.{IsPlain, IsTag, IsSample, tags_text, line_of}
use chalk_metrics.Float.{Float}
use chalk_metrics.Prelude.{
  ◌≡◌, refl, sym, ap, ◌∙◌, List, [], ◌∷◌, ◌++◌, inl, inr, All, append_assoc, Returns,
}
use chalk_metrics.Prelude.Text.{Str, codes, show_u64}
use chalk_metrics.Sketch.Links.Represents.{Buckets}
use chalk_metrics.Sketch.Udd.{UddSketch, mean}
use chalk_metrics.Sketch.Udd.Quantile.{estimate_quantile-panic}
use chalk_metrics.Sketch.Udd.Values.{IsSketch}
use chalk_metrics.Export.Statsd.Samples.{
  Written, IsDisplayed, IsMode, sample_of, AreQuantiles, AreOfMode,
}

module _ ⦃fl : Float⦄ where
  open fl use {F}

  module _ (shown : IsDisplayed) where
    label_plain : (p : F) → IsPlain (format_percentile_label p)
    unfolding format_percentile_label
    label_plain p =
        plain_cons b'p' (show_u64 (fl.to_u32 (fl.round (fl.mul p fl.hundred)))) refl refl refl refl
          (plain_u64 (fl.to_u32 (fl.round (fl.mul p fl.hundred))))

    module _ (name : Str) (tags : List (Str × Str)) (named : IsPlain name)
        (tagged : All IsTag tags) where
      good :
          (suffix value kind : Str)
          → IsPlain suffix
          → IsPlain value
          → IsPlain kind
          → IsSample (sample_of (name ++ suffix) value kind tags)
      good suffix value kind a b c = record {
        name = plain_append name suffix named a;
        value = b;
        kind = c;
        tags = tagged;
      }

      pub good_plain :
          (value kind : Str)
          → IsPlain value
          → IsPlain kind
          → IsSample (sample_of name value kind tags)
      good_plain value kind b c = record { name = named; value = b; kind = c; tags = tagged }

      percentile_lines-Written :
          (sketch : UddSketch F) (l : Buckets) (ps : List F)
          → IsSketch sketch l
          → IsMode (percentiles ps)
          → Returns
              (percentile_lines sketch name (tags_text tags) ps)
              (Written (AreQuantiles sketch name tags ps))
      unfolding percentile_lines
      percentile_lines-Written sketch l [] inv h = ([], refl, ([], refl, tt, refl))
      percentile_lines-Written sketch l (p ∷ ps) inv h =
          elim (estimate_quantile-panic sketch l p inv) [
            | inl (v, run, u) ↦
                let (lines, run', (samples, same, ok_samples, of_quantiles)) =
                  percentile_lines-Written sketch l ps inv h.1 in
                let label = format_percentile_label p in
                let s = sample_of (name ++ codes "." ++ label) (fl.display v) (codes "g") tags in
                (
                  (name
                        ++ codes "."
                        ++ label
                        ++ codes ":"
                        ++ fl.display v
                        ++ codes "|g"
                        ++ tags_text tags)
                      ∷ lines,
                  rw run (rw run' refl),
                  (
                    s ∷ samples,
                    ap (λ x. x ∷ lines)
                          (line_lem (name ++ codes "." ++ label) (fl.display v) (codes "g")
                            (tags_text tags))
                        ∙ ap (◌∷◌ (line_of s)) same,
                    (
                      record {
                        name =
                            plain_append (name ++ codes ".") label
                              (plain_append name (codes ".") named (plain_dot [] plain_nil))
                              (label_plain p);
                        value = shown v;
                        kind = plain_g;
                        tags = tagged;
                      },
                      ok_samples,
                    ),
                    (v, samples, run, refl, of_quantiles),
                  ),
                )
            | inr (out, _) ↦ cc (out, h.0)
          ]

      suffixed :
          (suffix value : Str)
          → name ++ (suffix ++ codes ":") ++ value ++ codes "|g" ++ tags_text tags
            ≡ line_of (sample_of (name ++ suffix) value (codes "g") tags)
      suffixed suffix value =
          ap (λ x. x ++ value ++ codes "|g" ++ tags_text tags)
            (sym (append_assoc name suffix (codes ":")))
          ∙ line_lem (name ++ suffix) value (codes "g") (tags_text tags)

      pub histogram_lines-Written :
          (mode : HistogramExportMode F) (sketch : UddSketch F) (l : Buckets)
          → IsSketch sketch l
          → IsMode mode
          → Returns
              (histogram_lines mode sketch name (tags_text tags))
              (Written (AreOfMode mode sketch name tags))
      unfolding histogram_lines format_distribution_line
      histogram_lines-Written distribution sketch l inv h = (
        _,
        refl,
        (
          sample_of name (fl.display (mean sketch)) (codes "d") tags ∷ [],
          ap (λ x. x ∷ []) (line_lem name (fl.display (mean sketch)) (codes "d") (tags_text tags)),
          (good_plain (fl.display (mean sketch)) (codes "d") (shown (mean sketch)) plain_d, tt),
          refl,
        ),
      )
      histogram_lines-Written (percentiles ps) sketch l inv h =
          let (lines, run, (samples, same, ok_samples, of_quantiles)) =
            percentile_lines-Written sketch l ps inv h in
          let n = show_u64 sketch.num_values in
          let avg = fl.display (mean sketch) in
          (
            (name ++ codes ".count:" ++ n ++ codes "|g" ++ tags_text tags)
                ∷ (name ++ codes ".avg:" ++ avg ++ codes "|g" ++ tags_text tags)
                ∷ lines,
            rw run refl,
            (
              sample_of (name ++ codes ".count") n (codes "g") tags
                  ∷ sample_of (name ++ codes ".avg") avg (codes "g") tags
                  ∷ samples,
              ap (λ x. x ∷ (name ++ codes ".avg:" ++ avg ++ codes "|g" ++ tags_text tags) ∷ lines)
                    (suffixed (codes ".count") n)
                  ∙ ap
                      (λ x.
                        line_of (sample_of (name ++ codes ".count") n (codes "g") tags) ∷ x ∷ lines)
                      (suffixed (codes ".avg") avg)
                  ∙ ap
                      (λ x.
                        line_of (sample_of (name ++ codes ".count") n (codes "g") tags)
                        ∷ line_of (sample_of (name ++ codes ".avg") avg (codes "g") tags)
                        ∷ x)
                      same,
              (
                good (codes ".count") n (codes "g") plain_count (plain_u64 sketch.num_values)
                    plain_g,
                (
                  good (codes ".avg") avg (codes "g") plain_avg (shown (mean sketch)) plain_g,
                  ok_samples,
                ),
              ),
              (samples, refl, of_quantiles),
            ),
          )
