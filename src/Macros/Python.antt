-- ===== src/Macros/Python.antt =====
-- chalk-metrics-macros/src/lib.rs: the classes for Python that the macros make, and what their
-- methods do.
use chalk_metrics.Aggregator.{StaticStr}
use chalk_metrics.Client.{Process}
use chalk_metrics.Deps.{Channel, HashTable}
use chalk_metrics.Float.{Float}
use chalk_metrics.Macros.{Field, MetricKind, TagRef}
use chalk_metrics.Macros.Recording.{
  MetricValue, count_record, count_record_value, gauge_record, histogram_record,
}
use chalk_metrics.Macros.Tags.{TagDef, TagValue, as_str, free}
use chalk_metrics.Prelude.{ℕ, List, [], ◌∷◌, ◌++◌, Option, none, some, Outcome}
use chalk_metrics.Prelude.Int.{ℤ}
use chalk_metrics.Prelude.Text.{Str, codes}

-- A class as `pyclass` and `pymethods` declare it: the Rust type and the name in Python, the
-- options, the arguments of `new` if there is one, the getters and the methods.
pub record PythonClass : Type 0 where
  pub ident : Str
  pub name : Str
  pub options : List Str
  pub constructor : Option (List Str)
  pub getters : List Str
  pub methods : List Str

-- An `enum` has its variants alone, a wrapper has `new` and `value`.
unfoldable pub tag_class : {V : Type 0} → TagDef V → PythonClass
tag_class t = elim t.values [
  | some values ↦ record {
    ident = t.ident;
    name = t.ident;
    options = codes "frozen" ∷ codes "eq" ∷ codes "eq_int" ∷ codes "hash" ∷ [];
    constructor = none;
    getters = [];
    methods = [];
  }
  | none ↦ record {
    ident = t.ident;
    name = t.ident;
    options = codes "frozen" ∷ codes "eq" ∷ codes "hash" ∷ [];
    constructor = some (codes "value" ∷ []);
    getters = codes "value" ∷ [];
    methods = [];
  }
]

unfoldable pub record_methods : MetricKind → List Str
record_methods MetricKind.count = codes "record" ∷ codes "record_value" ∷ []
record_methods MetricKind.gauge = codes "record" ∷ []
record_methods MetricKind.histogram = codes "record" ∷ []

-- The wrapper of a metric, by its kind, its name and its fields.
unfoldable pub metric_class : MetricKind → Str → List Str → PythonClass
metric_class kind ident fields = record {
  ident = codes "Py" ++ ident;
  name = ident;
  options = codes "frozen" ∷ [];
  constructor = some fields;
  getters = [];
  methods = record_methods kind;
}

-- `new` and `value` of a tag that wraps a text.
unfoldable pub tag_new : Str → TagValue
tag_new value = free value

unfoldable pub tag_value : {V : Type 0} → TagDef V → TagValue → Option Str
tag_value t v = as_str t v

pub record PyMetric : Type 0 where
  pub inner : MetricValue

-- `new`: the arguments are the fields, in their order.
unfoldable pub py_new : StaticStr → List Str → List TagRef → List Field → PyMetric
py_new name namespace tags arguments = record {
  inner = record { name = name; namespace = namespace; tags = tags; fields = arguments };
}

module _ ⦃fl : Float⦄ ⦃ht : HashTable⦄ ⦃ch : Channel⦄ (export_name : List Str → Str)
    (hash_of : List Field → ℕ) where
  open fl use {F}

  unfoldable pub py_count_record : PyMetric → Process → Outcome Process
  py_count_record m p = count_record export_name hash_of m.inner p

  unfoldable pub py_count_record_value : PyMetric → ℤ → Process → Outcome Process
  py_count_record_value m value p = count_record_value export_name hash_of m.inner value p

  unfoldable pub py_gauge_record : PyMetric → F → Process → Outcome Process
  py_gauge_record m value p = gauge_record export_name hash_of m.inner value p

  unfoldable pub py_histogram_record : ℕ → PyMetric → F → Process → Outcome Process
  py_histogram_record fuel m value p = histogram_record export_name hash_of fuel m.inner value p
