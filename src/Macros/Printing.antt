-- ===== src/Macros/Printing.antt =====
-- chalk-metrics-macros/src/lib.rs: the tokens of an input of each macro, as a reader of the
-- grammar writes them. The independent side of the round trip.
use chalk_metrics.Macros.{TagRef, MetricDef, MetricGroup, kind_name}
use chalk_metrics.Macros.Keyword
use chalk_metrics.Macros.Syn.{
  Syn, IsIdent, IsPath, Token, ident, punct, lit_str, group, parenthesis, brace, bracket,
  path_tokens, starts,
}
use chalk_metrics.Macros.Parsing.{NamespaceDef}
use chalk_metrics.Macros.Tags.{TagDef}
use chalk_metrics.Prelude.{
  ℕ, ◌<◌, ◌≡◌, Bool, true, false, List, [], ◌∷◌, ◌++◌, length, Option, none, some, All,
}
use chalk_metrics.Prelude.Text.{Str, codes}

module _ (syn : Syn) where
  open syn use {Stream, Visibility}

  abbrev pub Tokens : Type 0
  Tokens = List (Token Stream)

  -- Each of these puts the tokens of a part in front of `l`.
  abbrev pub optional_tokens : Bool → Tokens → Tokens
  optional_tokens true l = ident (codes "optional") ∷ l
  optional_tokens false l = l

  abbrev pub alias_tokens : Option Str → Tokens → Tokens
  alias_tokens none l = l
  alias_tokens (some x) l = ident (codes "as") ∷ ident x ∷ l

  abbrev pub tag_ref_tokens : TagRef → Tokens → Tokens
  tag_ref_tokens t l = optional_tokens t.optional (path_tokens t.ty ++ alias_tokens t.alias l)

  -- With a comma behind each tag.
  abbrev pub tag_list_tokens : List TagRef → Tokens
  tag_list_tokens [] = []
  tag_list_tokens (t ∷ l) = tag_ref_tokens t (punct (codes ",") ∷ tag_list_tokens l)

  abbrev pub tag_list : List TagRef → Token Stream
  tag_list l = group bracket (syn.from_tokens (tag_list_tokens l))

  abbrev pub extra_tokens : List TagRef → Tokens → Tokens
  extra_tokens [] l = l
  extra_tokens (t ∷ ts) l =
      punct (codes ",") ∷ ident (codes "tags") ∷ punct (codes "+=") ∷ tag_list (t ∷ ts) ∷ l

  abbrev pub metric_tokens : MetricDef Visibility → Tokens → Tokens
  metric_tokens m l =
      syn.visibility_tokens m.vis
      ++ (ident (kind_name m.kind)
          ∷ ident m.ident
          ∷ punct (codes "=>")
          ∷ lit_str m.name
          ∷ punct (codes ",")
          ∷ lit_str m.description
          ∷ extra_tokens m.extra_tags (punct (codes ";") ∷ l))

  abbrev pub metrics_tokens : List (MetricDef Visibility) → Tokens
  metrics_tokens [] = []
  metrics_tokens (m ∷ l) = metric_tokens m (metrics_tokens l)

  abbrev pub namespace_tokens : Option (List Str) → Tokens → Tokens
  namespace_tokens none l = l
  namespace_tokens (some p) l =
      ident (codes "namespace") ∷ punct (codes "=") ∷ (path_tokens p ++ (punct (codes ",") ∷ l))

  abbrev pub args_tokens : MetricGroup Visibility → Tokens
  args_tokens g =
      namespace_tokens g.namespace (ident (codes "tags") ∷ punct (codes "=") ∷ tag_list g.tags ∷ [])

  abbrev pub groups_tokens : List (MetricGroup Visibility) → Tokens
  groups_tokens [] = []
  groups_tokens (g ∷ l) =
      ident (codes "group")
      ∷ group parenthesis (syn.from_tokens (args_tokens g))
      ∷ group brace (syn.from_tokens (metrics_tokens g.metrics))
      ∷ groups_tokens l

  abbrev pub values_tokens : List (Str × Str) → Tokens
  values_tokens [] = []
  values_tokens ((variant, value) ∷ l) =
      ident variant ∷ punct (codes "=>") ∷ lit_str value ∷ punct (codes ",") ∷ values_tokens l

  abbrev pub body_token : Option (List (Str × Str)) → Token Stream
  body_token none = punct (codes ";")
  body_token (some values) = group brace (syn.from_tokens (values_tokens values))

  abbrev pub tag_tokens : TagDef Visibility → Tokens → Tokens
  tag_tokens t l =
      syn.visibility_tokens t.vis
      ++ (ident t.ident ∷ punct (codes "=>") ∷ lit_str t.export_name ∷ body_token t.values ∷ l)

  abbrev pub tags_tokens : List (TagDef Visibility) → Tokens
  tags_tokens [] = []
  tags_tokens (t ∷ l) = tag_tokens t (tags_tokens l)

  abbrev pub parent_tokens : Option (List Str) → Tokens → Tokens
  parent_tokens none l = l
  parent_tokens (some p) l =
      group parenthesis
        (syn.from_tokens (ident (codes "parent") ∷ punct (codes "=") ∷ path_tokens p ++ []))
      ∷ l

  abbrev pub namespace_def_tokens : NamespaceDef Visibility → Tokens → Tokens
  namespace_def_tokens d l =
      syn.visibility_tokens d.vis
      ++ (ident d.ident
          ∷ parent_tokens d.parent (punct (codes "=>") ∷ lit_str d.segment ∷ punct (codes ";") ∷ l))

  abbrev pub namespaces_tokens : List (NamespaceDef Visibility) → Tokens
  namespaces_tokens [] = []
  namespaces_tokens (d ∷ l) = namespace_def_tokens d (namespaces_tokens l)

  abbrev pub IsAlias : Option Str → Type 0
  IsAlias none = Unit {0}
  IsAlias (some x) = IsIdent syn x

  -- What can be written: the names are identifiers, and no tag's path starts with the word
  -- `optional`.
  pub record IsTagRef (t : TagRef) : Type 0 where
    pub ty : IsPath syn t.ty
    pub unmarked : starts {S = Stream} Keyword.optional (path_tokens t.ty) ≡ false
    pub alias : IsAlias t.alias

  pub record IsMetricDef (m : MetricDef Visibility) : Type 0 where
    pub kind : IsIdent syn (kind_name m.kind)
    pub ident : IsIdent syn m.ident
    pub extra_tags : All IsTagRef m.extra_tags

  abbrev pub IsNamespaceArg : Option (List Str) → Type 0
  IsNamespaceArg none = Unit {0}
  IsNamespaceArg (some p) = IsPath syn p

  pub record IsMetricGroup (fuel : ℕ) (g : MetricGroup Visibility) : Type 0 where
    pub namespace : IsNamespaceArg g.namespace
    pub tags : All IsTagRef g.tags
    pub metrics : All IsMetricDef g.metrics
    pub few : length g.metrics < fuel

  abbrev pub AreValues : ℕ → Option (List (Str × Str)) → Type 0
  AreValues fuel none = Unit {0}
  AreValues fuel (some values) =
      All (λ (v : Str × Str). IsIdent syn v.0) values × (length values < fuel)

  pub record IsTagDef (fuel : ℕ) (t : TagDef Visibility) : Type 0 where
    pub ident : IsIdent syn t.ident
    pub values : AreValues fuel t.values

  pub record IsNamespaceDef (d : NamespaceDef Visibility) : Type 0 where
    pub ident : IsIdent syn d.ident
    pub parent : IsNamespaceArg d.parent
