-- ===== src/Macros/RoundTrip/Namespaces.antt =====
-- chalk-metrics-macros/src/lib.rs: parsing the tokens of an input of `define_namespaces!`.
use Prim.Native.Nat.{zero}
use chalk_metrics.Macros.{parsed}
use chalk_metrics.Macros.Keyword
use chalk_metrics.Macros.Printing.{Tokens, IsNamespaceArg}
use chalk_metrics.Macros.Parsing.{parse_parent, NamespaceDef, parse_namespaces}
use chalk_metrics.Macros.Printing.{parent_tokens, namespaces_tokens, IsNamespaceDef}
use chalk_metrics.Macros.Syn.{
  Syn, IsSyn, Reads, ident, punct, lit_str, path_tokens, opening, parenthesis,
}
use chalk_metrics.Prelude.{
  ℕ, suc, ◌<◌, ◌≡◌, refl, ◌∙◌, List, [], ◌∷◌, ◌++◌, length, Option, none, some, All, arith,
}
use chalk_metrics.Prelude.Text.{Str, codes}
use chalk_metrics.Macros.RoundTrip.{peek_at, is_empty_at, visibility_not_empty}

module _ (syn : Syn) (law : IsSyn syn) where
  open syn use {Stream, Visibility}

  parse_parent-tokens :
      (o : Option (List Str)) (s : Stream) (l : Tokens syn)
      → syn.tokens s ≡ parent_tokens syn o (punct (codes "=>") ∷ l)
      → IsNamespaceArg syn o
      → Reads syn (parse_parent syn s) o (punct (codes "=>") ∷ l)
  unfolding parse_parent
  parse_parent-tokens none s l e h =
      (s, rw (peek_at syn law (opening parenthesis) s _ e, parse_parent), e)
  parse_parent-tokens (some p) s l e h =
      let behind = path_tokens p ++ [] in
      let inner = ident (codes "parent") ∷ punct (codes "=") ∷ behind in
      let content = syn.from_tokens inner in
      let (r, run, k) = law.delimited_lem parenthesis s content (punct (codes "=>") ∷ l) e in
      let (r1, e1, k1) =
        law.parse_mark_lem Keyword.parent content (ident (codes "parent"))
          (punct (codes "=") ∷ behind) (law.tokens-from_tokens inner) refl in
      let (r2, e2, k2) = law.parse_mark_lem Keyword.equals r1 (punct (codes "=")) behind k1 refl in
      let (r3, e3, k3) = law.parse_path_lem r2 p [] k2 h (refl, refl, refl) in
      (
        r,
        rw (peek_at syn law (opening parenthesis) s _ e, parse_parent)
            (rw run (rw e1 (rw e2 (rw e3 (rw (law.leave-empty r3 k3)))))),
        k,
      )

  -- From a stream that holds the tokens of namespaces with identifiers for names,
  -- `define_namespaces!` parses those namespaces, where the fuel exceeds their number.
  pub parse_namespaces-tokens :
      (fuel : ℕ) (ds : List (NamespaceDef Visibility)) (s : Stream)
      → length ds < fuel
      → syn.tokens s ≡ namespaces_tokens syn ds
      → All (IsNamespaceDef syn) ds
      → parse_namespaces syn fuel s ≡ parsed ds
  unfolding parse_namespaces
  parse_namespaces-tokens zero ds s f e h = absurd (omega (arith, f))
  parse_namespaces-tokens (suc fuel) [] s f e h = rw (is_empty_at syn law s [] e, parse_namespaces)
  parse_namespaces-tokens (suc fuel) (d ∷ ds) s f e h =
      let rest = namespaces_tokens syn ds in
      let last = lit_str d.segment ∷ punct (codes ";") ∷ rest in
      let l1 = parent_tokens syn d.parent (punct (codes "=>") ∷ last) in
      let (r1, e1, k1) = law.parse_visibility_lem s d.vis d.ident l1 e h.0.ident in
      let (r2, e2, k2) = law.parse_ident_lem r1 d.ident l1 k1 h.0.ident in
      let (r3, e3, k3) = parse_parent-tokens d.parent r2 last k2 h.0.parent in
      let (r4, e4, k4) = law.parse_mark_lem Keyword.arrow r3 (punct (codes "=>")) last k3 refl in
      let (r5, e5, k5) = law.parse_lit_str_lem r4 d.segment (punct (codes ";") ∷ rest) k4 in
      let (r6, e6, k6) = law.parse_mark_lem Keyword.semicolon r5 (punct (codes ";")) rest k5 refl in
      rw
        (is_empty_at syn law s _ e ∙ visibility_not_empty syn law d.vis d.ident _, parse_namespaces)
        (rw e1 (
          rw e2 (
            rw e3 (
              rw e4 (
                rw e5
                  (rw e6 (rw (parse_namespaces-tokens fuel ds r6 (omega (arith, f)) k6 h.1))))))))
