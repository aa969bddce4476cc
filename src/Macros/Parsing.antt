-- ===== src/Macros/Parsing.antt =====
-- chalk-metrics-macros/src/lib.rs: the `Parse` implementations, each loop on fuel.
use Prim.Native.Nat.{zero}
use chalk_metrics.Macros.{
  TagRef, MetricDef, MetricGroup, Parsed, parsed, error, unfinished, ◌>>=◌, parse_metric_kind,
}
use chalk_metrics.Macros.Keyword
use chalk_metrics.Macros.Syn.{Syn, Mark, opening, parenthesis, brace, bracket}
use chalk_metrics.Macros.Tags.{TagDef}
use chalk_metrics.Prelude.{ℕ, suc, Bool, true, false, List, [], ◌∷◌, Option, none, some}
use chalk_metrics.Prelude.Text.{Str, codes}

pub record NamespaceDef (V : Type 0) : Type 0 where
  pub vis : V
  pub ident : Str
  pub parent : Option (List Str)
  pub segment : Str

abbrev unwrap_or_default : {A : Type 0} → Option (List A) → List A
unwrap_or_default none = []
unwrap_or_default (some l) = l

module _ (syn : Syn) where
  open syn use {Stream, Visibility}

  -- `if input.peek(..) { input.parse::<..>()?; }`
  unfoldable pub skip : Mark → Stream → Parsed Stream
  skip m input = elim (syn.peek m input) [ true ↦ syn.parse_mark m input | false ↦ parsed input ]

  -- The listed values of a tag.
  unfoldable pub parse_values : ℕ → Stream → Parsed (List (Str × Str))
  parse_values zero content = unfinished
  parse_values (suc fuel) content = elim (syn.is_empty content) [
    | true ↦ parsed []
    | false ↦ do
      (variant, content) ← syn.parse_ident content
      content ← syn.parse_mark Keyword.arrow content
      (value, content) ← syn.parse_lit_str content
      content ← skip Keyword.comma content
      values ← parse_values fuel content
      parsed ((variant, value) ∷ values)
  ]

  -- The values in braces, or a semicolon.
  unfoldable pub parse_body : ℕ → Stream → Parsed (Option (List (Str × Str)) × Stream)
  parse_body fuel input = elim (syn.peek (opening brace) input) [
    | true ↦ do
      (content, input) ← syn.delimited brace input
      values ← parse_values fuel content
      parsed (some values, input)
    | false ↦ do input ← syn.parse_mark Keyword.semicolon input; parsed (none, input)
  ]

  unfoldable pub parse_tags : ℕ → Stream → Parsed (List (TagDef Visibility))
  parse_tags zero input = unfinished
  parse_tags (suc fuel) input = elim (syn.is_empty input) [
    | true ↦ parsed []
    | false ↦ do
      (vis, input) ← syn.parse_visibility input
      (ident, input) ← syn.parse_ident input
      input ← syn.parse_mark Keyword.arrow input
      (export_name, input) ← syn.parse_lit_str input
      (values, input) ← parse_body fuel input
      input ← skip Keyword.comma input
      tags ← parse_tags fuel input
      parsed
          (record { vis = vis; ident = ident; export_name = export_name; values = values } ∷ tags)
  ]

  unfoldable pub parse_parent : Stream → Parsed (Option (List Str) × Stream)
  parse_parent input = elim (syn.peek (opening parenthesis) input) [
    | true ↦ do
      (content, input) ← syn.delimited parenthesis input
      content ← syn.parse_mark Keyword.parent content
      content ← syn.parse_mark Keyword.equals content
      (path, content) ← syn.parse_path content
      left ← syn.leave content
      parsed (some path, input)
    | false ↦ parsed (none, input)
  ]

  unfoldable pub parse_namespaces : ℕ → Stream → Parsed (List (NamespaceDef Visibility))
  parse_namespaces zero input = unfinished
  parse_namespaces (suc fuel) input = elim (syn.is_empty input) [
    | true ↦ parsed []
    | false ↦ do
      (vis, input) ← syn.parse_visibility input
      (ident, input) ← syn.parse_ident input
      (parent, input) ← parse_parent input
      input ← syn.parse_mark Keyword.arrow input
      (segment, input) ← syn.parse_lit_str input
      input ← syn.parse_mark Keyword.semicolon input
      namespaces ← parse_namespaces fuel input
      parsed (record { vis = vis; ident = ident; parent = parent; segment = segment } ∷ namespaces)
  ]

  unfoldable pub parse_optional : Stream → Parsed (Bool × Stream)
  parse_optional input = elim (syn.peek Keyword.optional input) [
    | true ↦ do input ← syn.parse_mark Keyword.optional input; parsed (true, input)
    | false ↦ parsed (false, input)
  ]

  unfoldable pub parse_alias : Stream → Parsed (Option Str × Stream)
  parse_alias input = elim (syn.peek Keyword.alias input) [
    | true ↦ do
      input ← syn.parse_mark Keyword.alias input
      (alias, input) ← syn.parse_ident input
      parsed (some alias, input)
    | false ↦ parsed (none, input)
  ]

  unfoldable pub parse_tag_ref : Stream → Parsed (TagRef × Stream)
  parse_tag_ref input = do
    (optional, input) ← parse_optional input
    (ty, input) ← syn.parse_path input
    (alias, input) ← parse_alias input
    parsed (record { optional = optional; ty = ty; alias = alias }, input)

  unfoldable pub parse_tag_list : Stream → Parsed (List TagRef × Stream)
  parse_tag_list input = do
    (content, input) ← syn.delimited bracket input
    refs ← syn.parse_terminated parse_tag_ref content
    parsed (refs, input)

  -- The arguments of a group: the namespace and the tags that are read so far are passed on.
  unfoldable pub parse_args :
      ℕ
      → Stream
      → Option (List Str)
      → Option (List TagRef)
      → Parsed (Option (List Str) × Option (List TagRef))
  parse_args zero args namespace tags = unfinished
  parse_args (suc fuel) args namespace tags = elim (syn.is_empty args) [
    | true ↦ parsed (namespace, tags)
    | false ↦ do
      (namespace, tags, args) ← elim (syn.peek Keyword.namespace args) [
        | true ↦ do
          args ← syn.parse_mark Keyword.namespace args
          args ← syn.parse_mark Keyword.equals args
          (path, args) ← syn.parse_path args
          parsed (some path, tags, args)
        | false ↦ elim (syn.peek Keyword.tags args) [
          | true ↦ do
            args ← syn.parse_mark Keyword.tags args
            args ← syn.parse_mark Keyword.equals args
            (refs, args) ← parse_tag_list args
            parsed (namespace, some refs, args)
          | false ↦ error (codes "expected `namespace = ...` or `tags = [...]`")
        ]
      ]
      args ← skip Keyword.comma args
      parse_args fuel args namespace tags
  ]

  -- The extra tags of a metric, which a comma may come before.
  unfoldable pub parse_extra_tags : Stream → Parsed (List TagRef × Stream)
  parse_extra_tags content = elim (syn.peek Keyword.comma content) [
    | false ↦ parsed ([], content)
    | true ↦ do
      content ← syn.parse_mark Keyword.comma content
      elim (syn.peek Keyword.tags content) [
        | false ↦ parsed ([], content)
        | true ↦ do
          content ← syn.parse_mark Keyword.tags content
          content ← syn.parse_mark Keyword.plus_equals content
          parse_tag_list content
      ]
  ]

  unfoldable pub parse_metric : Stream → Parsed (MetricDef Visibility × Stream)
  parse_metric content = do
    (vis, content) ← syn.parse_visibility content
    (kind_ident, content) ← syn.parse_ident content
    kind ← parse_metric_kind kind_ident
    (ident, content) ← syn.parse_ident content
    content ← syn.parse_mark Keyword.arrow content
    (name, content) ← syn.parse_lit_str content
    content ← syn.parse_mark Keyword.comma content
    (description, content) ← syn.parse_lit_str content
    (extra_tags, content) ← parse_extra_tags content
    content ← syn.parse_mark Keyword.semicolon content
    parsed (
      record {
        vis = vis;
        kind = kind;
        ident = ident;
        name = name;
        description = description;
        extra_tags = extra_tags;
      },
      content,
    )

  unfoldable pub parse_metrics : ℕ → Stream → Parsed (List (MetricDef Visibility))
  parse_metrics zero content = unfinished
  parse_metrics (suc fuel) content = elim (syn.is_empty content) [
    | true ↦ parsed []
    | false ↦ do
      (metric, content) ← parse_metric content
      metrics ← parse_metrics fuel content
      parsed (metric ∷ metrics)
  ]

  unfoldable pub parse_groups : ℕ → Stream → Parsed (List (MetricGroup Visibility))
  parse_groups zero input = unfinished
  parse_groups (suc fuel) input = elim (syn.is_empty input) [
    | true ↦ parsed []
    | false ↦ do
      input ← syn.parse_mark Keyword.group input
      (args, input) ← syn.delimited parenthesis input
      (namespace, tags) ← parse_args fuel args none none
      (content, input) ← syn.delimited brace input
      metrics ← parse_metrics fuel content
      groups ← parse_groups fuel input
      parsed (
          record { namespace = namespace; tags = unwrap_or_default tags; metrics = metrics }
          ∷ groups)
  ]
