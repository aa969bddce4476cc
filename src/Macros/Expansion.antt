-- ===== src/Macros/Expansion.antt =====
-- chalk-metrics-macros/src/lib.rs: the procedural macros themselves, with `expand_tags`,
-- `expand_namespaces` and `expand_metrics`. An error is the compile error with its message.
use chalk_metrics.Macros.{
  MetricKind, TagRef, MetricDef, MetricGroup, Parsed, parsed, ◌>>=◌, Casing, field_name,
  metric_tags, metric_doc,
}
use chalk_metrics.Macros.Parsing.{NamespaceDef, parse_groups, parse_namespaces, parse_tags}
use chalk_metrics.Macros.Python.{PythonClass, tag_class, metric_class}
use chalk_metrics.Macros.Syn.{Syn}
use chalk_metrics.Macros.Tags.{TagDef}
use chalk_metrics.Prelude.{ℕ, Bool, List, [], ◌∷◌, ◌++◌, map, Option, none, some, if◌then◌else◌}
use chalk_metrics.Prelude.Text.{Str, codes}

-- The type of a tag, and its class for Python.
pub record ExpandedTag (V : Type 0) : Type 0 where
  pub tag : TagDef V
  pub python_class : Option PythonClass

unfoldable pub expand_tags : {V : Type 0} → Bool → List (TagDef V) → List (ExpandedTag V)
expand_tags python_bindings [] = []
expand_tags python_bindings (t ∷ ts) =
    record { tag = t; python_class = if python_bindings then some (tag_class t) else none }
    ∷ expand_tags python_bindings ts

-- The marker type of a namespace, with what its `path` needs.
pub record ExpandedNamespace (V : Type 0) : Type 0 where
  pub vis : V
  pub ident : Str
  pub parent : Option (List Str)
  pub segment : Str

unfoldable pub expand_namespaces : {V : Type 0} → List (NamespaceDef V) → List (ExpandedNamespace V)
expand_namespaces namespaces =
    map (λ n. record { vis = n.vis; ident = n.ident; parent = n.parent; segment = n.segment })
      namespaces

-- What `expand_metric` makes of one metric.
pub record Expanded (V : Type 0) : Type 0 where
  pub vis : V
  pub ident : Str
  pub name : Str
  pub doc : Str
  pub kind : MetricKind
  pub namespace : List Str
  pub fields : List (Str × Bool)
  pub tags : List TagRef
  pub python_wrapper : Option PythonClass

abbrev no_namespace : List Str
no_namespace = codes "chalk_metrics" ∷ codes "__private" ∷ codes "NoNamespace" ∷ []

module _ ⦃casing : Casing⦄ where
  unfoldable pub expand_metric :
      {V : Type 0} → Bool → List Str → List TagRef → MetricDef V → Expanded V
  expand_metric python_bindings namespace tags m = record {
    vis = m.vis;
    ident = m.ident;
    name = m.name;
    doc = metric_doc m;
    kind = m.kind;
    namespace = namespace;
    fields = map (λ t. (field_name t, t.optional)) tags;
    tags = tags;
    python_wrapper =
        if python_bindings then some (metric_class m.kind m.ident (map field_name tags)) else none;
  }

  unfoldable pub namespace_or_none : Option (List Str) → List Str
  namespace_or_none none = no_namespace
  namespace_or_none (some path) = path

  unfoldable pub expand_metrics : {V : Type 0} → Bool → List (MetricGroup V) → List (Expanded V)
  expand_metrics python_bindings [] = []
  expand_metrics python_bindings (g ∷ gs) =
      map (λ m. expand_metric python_bindings (namespace_or_none g.namespace) (metric_tags g m) m)
        g.metrics
      ++ expand_metrics python_bindings gs

  module _ (syn : Syn) where
    open syn use {Stream, Visibility}

    -- `define_tags`, and `define_tags_python` where `python_bindings` holds.
    unfoldable pub define_tags : Bool → ℕ → Stream → Parsed (List (ExpandedTag Visibility))
    define_tags python_bindings fuel input = do
      tags ← parse_tags syn fuel input
      parsed (expand_tags python_bindings tags)

    unfoldable pub define_namespaces : ℕ → Stream → Parsed (List (ExpandedNamespace Visibility))
    define_namespaces fuel input = do
      namespaces ← parse_namespaces syn fuel input
      parsed (expand_namespaces namespaces)

    -- `define_metrics`, and `define_metrics_python` where `python_bindings` holds.
    unfoldable pub define_metrics : Bool → ℕ → Stream → Parsed (List (Expanded Visibility))
    define_metrics python_bindings fuel input = do
      groups ← parse_groups syn fuel input
      parsed (expand_metrics python_bindings groups)
