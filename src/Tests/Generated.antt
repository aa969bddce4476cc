-- ===== src/Tests/Generated.antt =====
-- The instance of the theorem on the way from a generated struct to an exporter.
use chalk_metrics.Aggregator.{metric_of, FlushedValue, new_map}
use chalk_metrics.Aggregator.Invariant.{new_map-IsMap}
use chalk_metrics.Client.{MetricsClient, Process, flush_client}
use chalk_metrics.Generated.{endpoint, status, http}
use chalk_metrics.Macros.{Field, required, path}
use chalk_metrics.Macros.Exported.{
  IsAmong, total, record_values, key_of, hash_in_map, record_values-exported,
}
use chalk_metrics.Macros.Recording.{MetricValue}
use chalk_metrics.Prelude.{ℕ, ◌≡◌, refl, arith, List, [], ◌∷◌, none, some, true, false, Returns}
use chalk_metrics.Prelude.Int.{pos, negsuc, i64_add}
use chalk_metrics.Prelude.Text.{codes}
use chalk_metrics.Slots.Histogram.Values.{AreSettings}
use chalk_metrics.Tests.Macros.{export_name}
use chalk_metrics.Tests.Room.{has_room}
use chalk_metrics.Tests.Standins.{word, whole, listed, listed-IsHashTable, bounded}

abbrev hash_of : List Field → ℕ
hash_of fields = 7

-- `HttpRequestCount { endpoint: "/api", status: Success }`
abbrev request : MetricValue
request = record {
  name = record { text = codes "request_count"; address = 1024 };
  namespace = path http;
  tags = endpoint ∷ status ∷ [];
  fields = required (codes "/api") ∷ required (codes "success") ∷ [];
}

abbrev settings : AreSettings 200 (word 0)
settings = record { room = omega arith; error_range = refl }

abbrev client : MetricsClient
client = record { aggregator = new_map 200 (word 0) none; worker = 0; worker_handle = true }

abbrev running : Process
running = record { global = some client; shutdown_called = false; handlers = 1; spawned = [] }

record_values-exported_example :
    Returns (record_values export_name hash_of request (pos 1 ∷ pos 5 ∷ negsuc 1 ∷ []) running) λ r.
      (c : MetricsClient) × (r.global ≡ some c)
      × Returns (flush_client c) (λ s.
        IsAmong
          (metric_of
            (key_of export_name hash_of request)
            (FlushedValue.count (total (i64_add (pos 0) (pos 1)) (pos 5 ∷ negsuc 1 ∷ []))))
          s.0)
record_values-exported_example =
    record_values-exported export_name hash_of listed-IsHashTable request (pos 1)
      (pos 5 ∷ negsuc 1 ∷ []) running client refl
      (new_map-IsMap listed-IsHashTable 200 (word 0) none settings).0
      (has_room client.aggregator (hash_in_map export_name hash_of request))
      ((new_map-IsMap listed-IsHashTable 200 (word 0) none settings).1
        (hash_in_map export_name hash_of request))
