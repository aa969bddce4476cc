-- ===== src/Macros.antt =====
-- chalk-metrics-macros/src/lib.rs: what the macros make of their parsed input. The tokens that are
-- quoted are the values and functions that they stand for.
pub mod Tags
pub mod Recording
pub mod Exported
pub mod Syn
pub mod Keyword
pub mod Parsing
pub mod Printing
pub mod RoundTrip
pub mod Expansion
pub mod Python
use chalk_metrics.Prelude.{
  ℕ, ◌+◌, Bool, true, false, ◌&&◌, List, [], ◌∷◌, ◌++◌, map, Option, none, some, if◌then◌else◌, ltb,
  ◌==◌, nat_eq,
}
use chalk_metrics.Prelude.Text.{Str, codes}

pub data MetricKind : Type 0 where
  count : MetricKind
  gauge : MetricKind
  histogram : MetricKind

-- `ty` is the path to the tag's type, by its segments.
pub record TagRef : Type 0 where
  pub optional : Bool
  pub ty : List Str
  pub alias : Option Str

-- `V` is the type of the visibilities.
pub record MetricDef (V : Type 0) : Type 0 where
  pub vis : V
  pub kind : MetricKind
  pub ident : Str
  pub name : Str
  pub description : Str
  pub extra_tags : List TagRef

pub record MetricGroup (V : Type 0) : Type 0 where
  pub namespace : Option (List Str)
  pub tags : List TagRef
  pub metrics : List (MetricDef V)

abbrev pub str_beq : Str → Str → Bool
str_beq [] [] = true
str_beq (a ∷ s) (b ∷ t) = (a == b) && str_beq s t
str_beq [] (b ∷ t) = false
str_beq (a ∷ s) [] = false

-- The error carries its message. A loop of the model may use up its fuel.
pub data Parsed (A : Type 0) : Type 0 where
  parsed : A → Parsed A
  error : Str → Parsed A
  unfinished : Parsed A

infixl 5 ◌>>=◌
abbrev pub ◌>>=◌ : {A B : Type 0} → Parsed A → (A → Parsed B) → Parsed B
parsed a >>= f = f a
error message >>= f = error message
unfinished >>= f = unfinished

unfoldable pub parse_metric_kind : Str → Parsed MetricKind
parse_metric_kind ident =
    if str_beq ident (codes "count")
    then parsed count
    else if str_beq ident (codes "gauge")
    then parsed gauge
    else if str_beq ident (codes "histogram")
    then parsed histogram
    else error (codes "expected metric type `count`, `gauge`, or `histogram`")

unfoldable pub kind_name : MetricKind → Str
kind_name count = codes "count"
kind_name gauge = codes "gauge"
kind_name histogram = codes "histogram"

-- `char::is_uppercase` and `char::to_lowercase`.
pub record Casing : Type 0 where
  pub is_uppercase : ℕ → Bool
  pub to_lowercase : ℕ → Str

module _ ⦃casing : Casing⦄ where
  -- The characters from position `i` on.
  unfoldable pub snake_from : ℕ → Str → Str
  snake_from i [] = []
  snake_from i (ch ∷ s) =
      (if casing.is_uppercase ch && ltb 0 i then codes "_" else [])
      ++ casing.to_lowercase ch
      ++ snake_from (i + 1) s

  unfoldable pub to_snake_case : Str → Str
  to_snake_case s = snake_from 0 s

  last_segment : List Str → Option Str
  last_segment [] = none
  last_segment (s ∷ []) = some s
  last_segment (s ∷ t ∷ l) = last_segment (t ∷ l)

  unfoldable pub default_field_ident : List Str → Str
  unfolding last_segment
  default_field_ident path = elim (last_segment path) [
    | none ↦ to_snake_case (codes "tag")
    | some s ↦ to_snake_case s
  ]

  unfoldable pub field_name : TagRef → Str
  field_name t = elim t.alias [ some alias ↦ alias | none ↦ default_field_ident t.ty ]

-- The tags that are in scope: a type by its path, with its `EXPORT_NAME`.
unfoldable pub export_key : (List Str → Str) → TagRef → Str
export_key export_name t = elim t.alias [ some alias ↦ alias | none ↦ export_name t.ty ]

-- A field of the struct holds a value, or an `Option` where the tag is optional.
pub data Field : Type 0 where
  required : Str → Field
  unset : Field
  present : Str → Field

-- The pairs that one field pushes.
unfoldable pub field_pairs : Str → Field → List (Str × Str)
field_pairs key (required value) = (key, value) ∷ []
field_pairs key (present value) = (key, value) ∷ []
field_pairs key unset = []

-- The generated `export_pairs`.
unfoldable pub export_pairs : (List Str → Str) → List TagRef → List Field → List (Str × Str)
export_pairs export_name [] fields = []
export_pairs export_name (t ∷ ts) [] = []
export_pairs export_name (t ∷ ts) (f ∷ fs) =
    field_pairs (export_key export_name t) f ++ export_pairs export_name ts fs

-- `tags.extend(metric.extra_tags.clone())`
unfoldable pub metric_tags : {V : Type 0} → MetricGroup V → MetricDef V → List TagRef
metric_tags g m = g.tags ++ m.extra_tags

unfoldable pub metric_doc : {V : Type 0} → MetricDef V → Str
metric_doc m = m.description ++ codes " (" ++ kind_name m.kind ++ codes ")"

-- A namespace type: its parent, if it has one, and its segment.
pub data Namespace : Type 0 where
  top : Str → Namespace
  child : Namespace → Str → Namespace

-- The generated `path()`.
unfoldable pub path : Namespace → List Str
path (top segment) = segment ∷ []
path (child parent segment) = path parent ++ segment ∷ []
