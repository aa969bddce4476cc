-- ===== src/Tests/Received.antt =====
-- Instances of the theorems on what a receiver reads.
use chalk_metrics.Aggregator.{FlushedMetric, FlushedValue, RawDistributionPoint}
use chalk_metrics.Export.Statsd.{
  StatsdExporter, percentiles, Wire, udp, send_metrics, send_raw_points, send_buffer,
}
use chalk_metrics.Export.Statsd.Batches.{Group, datagram, AreBatches, send_all}
use chalk_metrics.Export.Statsd.Datagrams.{read_datagrams}
use chalk_metrics.Export.Statsd.Plain.{plain_nil, plain_cons, plain_u64}
use chalk_metrics.Export.Statsd.Reading.{Sample, IsPlain}
use chalk_metrics.Export.Statsd.Received.{send_metrics-read, send_raw_points-read}
use chalk_metrics.Export.Statsd.Samples.{
  IsDisplayed, IsWritable, IsExportable, AreOfMetrics, sample_of_point, IsExportablePoint,
}
use chalk_metrics.Prelude.{true, ◌≡◌, refl, List, [], ◌∷◌, map, All, some, Returns}
use chalk_metrics.Prelude.Int.{negsuc}
use chalk_metrics.Prelude.Text.{codes}
use chalk_metrics.Tests.Sketches.{one_bucket, one_value, one_value-IsSketch}
use chalk_metrics.Tests.Standins.{Word, word, whole}

displayed : IsDisplayed
displayed x = plain_u64 x.0

abbrev exporter : StatsdExporter Word
exporter = record {
  namespace = some (codes "a");
  default_tags = (codes "e", codes "p") ∷ [];
  histogram_mode = percentiles (word 1 ∷ []);
  max_buffer_size = 40;
}

letter_a : IsPlain (codes "a")
letter_a = plain_cons b'a' [] refl refl refl refl plain_nil

letter_e : IsPlain (codes "e")
letter_e = plain_cons b'e' [] refl refl refl refl plain_nil

letter_p : IsPlain (codes "p")
letter_p = plain_cons b'p' [] refl refl refl refl plain_nil

exporter_good : IsWritable exporter
exporter_good = record {
  namespace = letter_a;
  default_tags = ((letter_e, letter_p.text), tt);
  mode = (refl, tt);
}

abbrev metric : FlushedValue Word → FlushedMetric Word
metric value = record {
  namespace = codes "p" ∷ [];
  metric_name = record { text = codes "e"; address = 0 };
  tags = record { pairs = (codes "a", codes "e") ∷ [] };
  value = value;
}

abbrev metrics : List (FlushedMetric Word)
metrics =
    metric (FlushedValue.count (negsuc 4))
    ∷ metric (FlushedValue.gauge (word 7))
    ∷ metric (FlushedValue.histogram (one_value 8))
    ∷ []

metrics_good : All IsExportable metrics
metrics_good = (
  record {
    namespace = (letter_p, tt);
    metric_name = letter_e;
    tags = ((letter_a, letter_e.text), tt);
    value = tt;
  },
  (
    record {
      namespace = (letter_p, tt);
      metric_name = letter_e;
      tags = ((letter_a, letter_e.text), tt);
      value = tt;
    },
    (
      record {
        namespace = (letter_p, tt);
        metric_name = letter_e;
        tags = ((letter_a, letter_e.text), tt);
        value = (one_bucket, one_value-IsSketch);
      },
      tt,
    ),
  ),
)

abbrev wire : Wire
wire = record { socket = udp; sent = []; observations = []; attempts = 0; takes = λ n. true }

send_metrics-read_example : Returns (send_metrics exporter metrics wire) λ r.
    (gs : List Group) × (samples : List Sample) × (r ≡ send_all send_buffer gs wire)
    × AreBatches 40 gs
    × (read_datagrams (map datagram gs) ≡ some samples)
    × AreOfMetrics exporter metrics samples
send_metrics-read_example =
    send_metrics-read displayed exporter exporter_good metrics wire metrics_good

abbrev points : List (RawDistributionPoint Word)
points =
    record {
      namespace = [];
      metric_name = record { text = codes "e"; address = 0 };
      tags = record { pairs = [] };
      value = word 3;
    }
    ∷ record {
      namespace = codes "a" ∷ [];
      metric_name = record { text = codes "p"; address = 8 };
      tags = record { pairs = (codes "p", codes "a") ∷ [] };
      value = word 11;
    }
    ∷ []

points_good : All IsExportablePoint points
points_good = (
  record { namespace = tt; metric_name = letter_e; tags = tt },
  (
    record {
      namespace = (letter_a, tt);
      metric_name = letter_p;
      tags = ((letter_p, letter_a.text), tt);
    },
    tt,
  ),
)

send_raw_points-read_example :
    (gs : List Group) × (send_raw_points exporter points wire ≡ send_all send_buffer gs wire)
    × AreBatches 40 gs
    × (read_datagrams (map datagram gs) ≡ some (map (sample_of_point exporter) points))
send_raw_points-read_example =
    send_raw_points-read displayed exporter exporter_good points wire points_good
