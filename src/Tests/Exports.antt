-- ===== src/Tests/Exports.antt =====
-- Instances of the theorems on the exporters.
use chalk_metrics.Aggregator.{FlushedValue}
use chalk_metrics.Export.Prometheus.{PrometheusExporter, render_value, format_tags, line}
use chalk_metrics.Export.Prometheus.Samples.{sample_lines, histogram_samples, render_value-samples}
use chalk_metrics.Export.Prometheus.Counts.{AreRising, boundaries}
use chalk_metrics.Export.Statsd.{Observation}
use chalk_metrics.Export.Statsd.Reconnection.{
  send_many, addressed, taken, texts, answers, uds_wire, send_many-addressed, send_many-lost,
}
use chalk_metrics.Prelude.{
  ℕ, ◌≡◌, ◌++◌, not, ◌==◌, nat_eq, refl, true, false, some, none, inl, inr, List, [], ◌∷◌, Returns,
}
use chalk_metrics.Prelude.Text.{Str, codes}
use chalk_metrics.Tests.Sketches.{one_bucket, one_link-Represents, one_value}
use chalk_metrics.Tests.Standins.{Word, word, whole}

abbrev three_lines : List Str
three_lines = codes "a:1|c" ∷ codes "b:2|g" ∷ codes "c:3|d" ∷ []

abbrev two_boundaries : List Word
two_boundaries = word 1 ∷ word 9 ∷ []

-- The socket at the path is replaced between the second and the third datagram, and the second is
-- refused.
abbrev replaced : List (Observation × Str)
replaced =
    (record { inode = some 4; connects = true }, codes "a:1|c")
    ∷ (record { inode = none; connects = true }, codes "b:2|g")
    ∷ (record { inode = some 9; connects = true }, codes "c:3|d")
    ∷ []

send_many-addressed_example :
    (send_many
      (texts replaced)
      (uds_wire 0 (λ n. not (n == 1)) (some 4) 4 [] (answers replaced))).sent
    ≡ [] ++ taken (λ n. not (n == 1)) 0 (addressed 4 replaced)
send_many-addressed_example =
    send_many-addressed 0 (λ n. not (n == 1)) 4 [] replaced (refl, (refl, (refl, tt)))

addressed-replaced :
    addressed 4 replaced ≡ (4, codes "a:1|c") ∷ (4, codes "b:2|g") ∷ (9, codes "c:3|d") ∷ []
addressed-replaced = refl

-- Nobody listened when the exporter was made; later the path shows the same inode.
abbrev same_inode : List (Observation × Str)
same_inode =
    (record { inode = some 4; connects = true }, codes "a:1|c")
    ∷ (record { inode = none; connects = false }, codes "b:2|g")
    ∷ []

send_many-lost_example :
    send_many (texts same_inode) (uds_wire 3 (λ n. true) none 4 [] (answers same_inode))
    ≡ uds_wire 3 (λ n. true) none 4 [] []
send_many-lost_example = send_many-lost 3 (λ n. true) 4 [] same_inode (inr refl, (inl refl, tt))

abbrev text_exporter : PrometheusExporter Word
text_exporter = record { namespace = none; bucket_boundaries = two_boundaries; latest = [] }

abbrev one_label : List (Str × Str)
one_label = (codes "k", codes "v") ∷ []

render_value-samples_example :
    Returns
      (render_value text_exporter
        (FlushedValue.histogram (one_value 8))
        (codes "m")
        (format_tags one_label))
      λ text.
        (counts : List (Word × ℕ)) × (text
          ≡ line (codes "# HELP " ++ codes "m" ++ codes " " ++ codes "m")
            ++ line (codes "# TYPE " ++ codes "m" ++ codes " " ++ codes "histogram")
            ++ sample_lines (codes "m") (histogram_samples one_label (one_value 8) counts))
        × AreRising 0 counts
        × (boundaries counts ≡ two_boundaries)
render_value-samples_example =
    render_value-samples text_exporter (one_value 8) one_bucket (codes "m") one_label
      one_link-Represents
