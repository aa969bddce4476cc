-- ===== src/Macros/RoundTrip.antt =====
-- chalk-metrics-macros/src/lib.rs: parsing the tokens of a tag list.
pub mod Metrics
pub mod Tags
pub mod Namespaces
use Prim.Native.Nat.{zero}
use chalk_metrics.Macros.{
  MetricKind, count, gauge, histogram, TagRef, MetricDef, MetricGroup, Parsed, parsed, ◌>>=◌,
  kind_name, parse_metric_kind,
}
use chalk_metrics.Macros.Keyword
use chalk_metrics.Macros.Parsing.{
  skip, parse_optional, parse_alias, parse_tag_ref, parse_tag_list, parse_args, parse_extra_tags,
  parse_metric, parse_metrics, parse_groups,
}
use chalk_metrics.Macros.Printing.{
  Tokens, optional_tokens, alias_tokens, tag_ref_tokens, tag_list_tokens, tag_list, extra_tokens,
  metric_tokens, metrics_tokens, namespace_tokens, args_tokens, groups_tokens, IsAlias, IsTagRef,
  IsMetricDef, IsNamespaceArg, IsMetricGroup,
}
use chalk_metrics.Macros.Syn.{
  Syn, IsSyn, IsIdent, IsPath, Reads, EndsPath, Token, ident, punct, lit_str, group, Mark, starts,
  path_tokens, is_nil, parenthesis, brace, bracket,
}
use chalk_metrics.Prelude.{
  ℕ, suc, ◌<◌, ◌≤◌, ◌≡◌, refl, sym, ap, ◌∙◌, Bool, true, false, List, [], ◌∷◌, ◌++◌, append_assoc,
  length, Option, none, some, All, length-append, if◌then◌else◌, arith,
}
use chalk_metrics.Prelude.Text.{Str, codes}

-- The word of a kind is read as that kind.
pub parse_metric_kind-kind_name : (k : MetricKind) → parse_metric_kind (kind_name k) ≡ parsed k
unfolding parse_metric_kind kind_name
parse_metric_kind-kind_name count = refl
parse_metric_kind-kind_name gauge = refl
parse_metric_kind-kind_name histogram = refl

module _ (syn : Syn) (law : IsSyn syn) where
  open syn use {Stream, Visibility}

  pub peek_at :
      (m : Mark) (s : Stream) (l : Tokens syn) → syn.tokens s ≡ l → syn.peek m s ≡ starts m l
  peek_at m s l e = law.peek-starts m s ∙ ap (starts m) e

  pub is_empty_at : (s : Stream) (l : Tokens syn) → syn.tokens s ≡ l → syn.is_empty s ≡ is_nil l
  is_empty_at s l e = law.is_empty-tokens s ∙ ap is_nil e

  -- An identifier stands behind a visibility.
  pub visibility_not_empty :
      (v : Visibility) (x : Str) (l : Tokens syn)
      → is_nil (syn.visibility_tokens v ++ (ident x ∷ l)) ≡ false
  visibility_not_empty v x l = not_empty (syn.visibility_tokens v)
    where
      not_empty : (a : Tokens syn) → is_nil (a ++ (ident x ∷ l)) ≡ false
      not_empty [] = refl
      not_empty (t ∷ a) = refl

  -- Behind the path of a tag stands `as` or a comma.
  alias-EndsPath :
      (a : Option Str) (l : Tokens syn) → EndsPath (alias_tokens syn a (punct (codes ",") ∷ l))
  alias-EndsPath none l = (refl, refl, refl)
  alias-EndsPath (some x) l = (refl, refl, refl)

  starts-append :
      (p : List Str) (l : Tokens syn)
      → IsPath syn p
      → starts {S = Stream} Keyword.optional (path_tokens p) ≡ false
      → starts Keyword.optional (path_tokens p ++ l) ≡ false
  starts-append [] l h e = absurd h
  starts-append (x ∷ []) l h e = e
  starts-append (x ∷ y ∷ p) l h e = e

  optional_not_empty :
      (b : Bool) (p : List Str) (l : Tokens syn)
      → IsPath syn p
      → is_nil (optional_tokens syn b (path_tokens p ++ l)) ≡ false
  optional_not_empty true p l h = refl
  optional_not_empty false [] l h = absurd h
  optional_not_empty false (x ∷ []) l h = refl
  optional_not_empty false (x ∷ y ∷ p) l h = refl

  parse_optional-tokens :
      (b : Bool) (p : List Str) (s : Stream) (l : Tokens syn)
      → syn.tokens s ≡ optional_tokens syn b (path_tokens p ++ l)
      → IsPath syn p
      → starts {S = Stream} Keyword.optional (path_tokens p) ≡ false
      → Reads syn (parse_optional syn s) b (path_tokens p ++ l)
  unfolding parse_optional
  parse_optional-tokens true p s l e h n =
      let (r, run, left) =
        law.parse_mark_lem Keyword.optional s (ident (codes "optional")) (path_tokens p ++ l) e
          refl in
      (r, rw (peek_at Keyword.optional s _ e, parse_optional) (rw run), left)
  parse_optional-tokens false p s l e h n =
      let unmarked : syn.peek Keyword.optional s ≡ false =
        peek_at Keyword.optional s (path_tokens p ++ l) e ∙ starts-append p l h n in
      (s, rw (unmarked, parse_optional), e)

  parse_alias-tokens :
      (a : Option Str) (s : Stream) (l : Tokens syn)
      → syn.tokens s ≡ alias_tokens syn a (punct (codes ",") ∷ l)
      → IsAlias syn a
      → Reads syn (parse_alias syn s) a (punct (codes ",") ∷ l)
  unfolding parse_alias
  parse_alias-tokens none s l e h = (s, rw (peek_at Keyword.alias s _ e, parse_alias), e)
  parse_alias-tokens (some x) s l e h =
      let (r, run, left) =
        law.parse_mark_lem Keyword.alias s (ident (codes "as")) (ident x ∷ punct (codes ",") ∷ l) e
          refl in
      let (r', run', left') = law.parse_ident_lem r x (punct (codes ",") ∷ l) left h in
      (r', rw (peek_at Keyword.alias s _ e, parse_alias) (rw run (rw run')), left')

  parse_tag_ref-tokens :
      (t : TagRef) (s : Stream) (l : Tokens syn)
      → syn.tokens s ≡ tag_ref_tokens syn t (punct (codes ",") ∷ l)
      → IsTagRef syn t
      → Reads syn (parse_tag_ref syn s) t (punct (codes ",") ∷ l)
  unfolding parse_tag_ref
  parse_tag_ref-tokens t s l e h =
      let behind = alias_tokens syn t.alias (punct (codes ",") ∷ l) in
      let (r, run, k) = parse_optional-tokens t.optional t.ty s behind e h.ty h.unmarked in
      let (r', run', k') = law.parse_path_lem r t.ty behind k h.ty (alias-EndsPath t.alias l) in
      let (r'', run'', k'') = parse_alias-tokens t.alias r' l k' h.alias in
      (r'', rw run (rw run' (rw run'')), k'')

  alias-shorter : (a : Option Str) (l : Tokens syn) → length l ≤ length (alias_tokens syn a l)
  alias-shorter none l = omega arith
  alias-shorter (some x) l = omega arith

  optional-shorter : (b : Bool) (l : Tokens syn) → length l ≤ length (optional_tokens syn b l)
  optional-shorter true l = omega arith
  optional-shorter false l = omega arith

  -- A tag with its comma takes tokens.
  tag_ref-shorter :
      (t : TagRef) (l : Tokens syn)
      → length l < length (tag_ref_tokens syn t (punct (codes ",") ∷ l))
  tag_ref-shorter t l =
      let behind = alias_tokens syn t.alias (punct (codes ",") ∷ l) in
      omega (
        arith,
        alias-shorter t.alias (punct (codes ",") ∷ l),
        length-append (path_tokens t.ty) behind,
        optional-shorter t.optional (path_tokens t.ty ++ behind),
      )

  tag_refs-tokens :
      (l : List TagRef) (s : Stream)
      → syn.tokens s ≡ tag_list_tokens syn l
      → All (IsTagRef syn) l
      → syn.parse_terminated (parse_tag_ref syn) s ≡ parsed l
  tag_refs-tokens [] s e h = law.terminated-empty TagRef (parse_tag_ref syn) s (is_empty_at s [] e)
  tag_refs-tokens (t ∷ l) s e h =
      let (r, run, k) = parse_tag_ref-tokens t s (tag_list_tokens syn l) e h.0 in
      let (r', run', k') =
        law.parse_mark_lem Keyword.comma r (punct (codes ",")) (tag_list_tokens syn l) k refl in
      law.terminated-more TagRef (parse_tag_ref syn) s r r' t l
        (is_empty_at s _ e ∙ optional_not_empty t.optional t.ty _ h.0.ty) run
        (is_empty_at r (punct (codes ",") ∷ tag_list_tokens syn l) k) run'
        (rw (e, k') (tag_ref-shorter t (tag_list_tokens syn l))) (tag_refs-tokens l r' k' h.1)

  pub parse_tag_list-tokens :
      (l : List TagRef) (s : Stream) (rest : Tokens syn)
      → syn.tokens s ≡ tag_list syn l ∷ rest
      → All (IsTagRef syn) l
      → Reads syn (parse_tag_list syn s) l rest
  unfolding parse_tag_list
  parse_tag_list-tokens l s rest e h =
      let content = syn.from_tokens (tag_list_tokens syn l) in
      let (r, run, k) = law.delimited_lem bracket s content rest e in
      (
        r,
        rw run (rw (tag_refs-tokens l content (law.tokens-from_tokens (tag_list_tokens syn l)) h)),
        k,
      )
