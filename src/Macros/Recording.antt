-- ===== src/Macros/Recording.antt =====
-- chalk-metrics-macros/src/lib.rs: the recording methods that `expand_metric` makes. `DefaultHasher`
-- is an argument.
use chalk_metrics.Aggregator.{Identity, StaticStr}
use chalk_metrics.Client.{
  Process, record_count_global, record_gauge_global, record_histogram_global,
}
use chalk_metrics.Deps.{Channel, HashTable}
use chalk_metrics.Float.{Float}
use chalk_metrics.Macros.{Field, TagRef, export_pairs}
use chalk_metrics.Prelude.{ℕ, List, Outcome, ok}
use chalk_metrics.Prelude.Int.{ℤ, pos}
use chalk_metrics.Prelude.Text.{Str}

-- A value of a generated struct, with the constants of its type.
pub record MetricValue : Type 0 where
  pub name : StaticStr
  pub namespace : List Str
  pub tags : List TagRef
  pub fields : List Field

module _ ⦃fl : Float⦄ ⦃ht : HashTable⦄ ⦃ch : Channel⦄ (export_name : List Str → Str)
    (hash_of : List Field → ℕ) where
  open fl use {F}

  -- What every recording passes on: `Self::NAME`, `Self::namespace()`, the hash, the closure.
  unfoldable pub identity_of : MetricValue → Identity
  identity_of v = record {
    metric_name = v.name;
    namespace = v.namespace;
    tags_hash = hash_of v.fields;
    make_tags = ok (record { pairs = export_pairs export_name v.tags v.fields });
  }

  unfoldable pub count_record_value : MetricValue → ℤ → Process → Outcome Process
  count_record_value v value p = record_count_global p (identity_of v) value

  unfoldable pub count_record : MetricValue → Process → Outcome Process
  count_record v p = count_record_value v (pos 1) p

  unfoldable pub gauge_record : MetricValue → F → Process → Outcome Process
  gauge_record v value p = record_gauge_global p (identity_of v) value

  unfoldable pub histogram_record : ℕ → MetricValue → F → Process → Outcome Process
  histogram_record fuel v value p = record_histogram_global fuel p (identity_of v) value
