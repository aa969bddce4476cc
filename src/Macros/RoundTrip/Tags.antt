-- ===== src/Macros/RoundTrip/Tags.antt =====
-- chalk-metrics-macros/src/lib.rs: parsing the tokens of an input of `define_tags!`.
use Prim.Native.Nat.{zero}
use chalk_metrics.Macros.{parsed}
use chalk_metrics.Macros.Keyword
use chalk_metrics.Macros.Parsing.{skip}
use chalk_metrics.Macros.Printing.{Tokens}
use chalk_metrics.Macros.Parsing.{parse_body, parse_values, parse_tags}
use chalk_metrics.Macros.Tags.{TagDef}
use chalk_metrics.Macros.Printing.{values_tokens, body_token, tags_tokens, AreValues, IsTagDef}
use chalk_metrics.Macros.Syn.{Syn, IsSyn, IsIdent, Reads, punct, lit_str, starts, opening, brace}
use chalk_metrics.Prelude.{
  ℕ, suc, ◌+◌, ◌≤◌, inl, inr, ◌<◌, ◌≡◌, refl, ◌∙◌, false, List, [], ◌∷◌, length, Option, none, some,
  All, arith,
}
use chalk_metrics.Prelude.Text.{Str, codes}
use chalk_metrics.Macros.RoundTrip.{peek_at, is_empty_at, visibility_not_empty}

module _ (syn : Syn) (law : IsSyn syn) where
  open syn use {Stream, Visibility}

  parse_values-tokens :
      (fuel : ℕ) (vs : List (Str × Str)) (s : Stream)
      → length vs < fuel
      → syn.tokens s ≡ values_tokens syn vs
      → All (λ (v : Str × Str). IsIdent syn v.0) vs
      → parse_values syn fuel s ≡ parsed vs
  unfolding parse_values skip
  parse_values-tokens zero vs s f e h = absurd (omega (arith, f))
  parse_values-tokens (suc fuel) [] s f e h = rw (is_empty_at syn law s [] e, parse_values)
  parse_values-tokens (suc fuel) ((x, v) ∷ vs) s f e h =
      let last = punct (codes ",") ∷ values_tokens syn vs in
      let (r1, e1, k1) = law.parse_ident_lem s x (punct (codes "=>") ∷ lit_str v ∷ last) e h.0 in
      let (r2, e2, k2) =
        law.parse_mark_lem Keyword.arrow r1 (punct (codes "=>")) (lit_str v ∷ last) k1 refl in
      let (r3, e3, k3) = law.parse_lit_str_lem r2 v last k2 in
      let (r4, e4, k4) =
        law.parse_mark_lem Keyword.comma r3 (punct (codes ",")) (values_tokens syn vs) k3 refl in
      rw (is_empty_at syn law s _ e, parse_values)
        (rw e1 (
          rw e2 (
            rw e3 (
              rw (peek_at syn law Keyword.comma r3 _ k3, skip)
                (rw e4 (rw (parse_values-tokens fuel vs r4 (omega (arith, f)) k4 h.1)))))))

  parse_body-tokens :
      (fuel : ℕ) (values : Option (List (Str × Str))) (s : Stream) (l : Tokens syn)
      → AreValues syn fuel values
      → syn.tokens s ≡ body_token syn values ∷ l
      → Reads syn (parse_body syn fuel s) values l
  unfolding parse_body
  parse_body-tokens fuel none s l h e =
      let (r, run, k) = law.parse_mark_lem Keyword.semicolon s (punct (codes ";")) l e refl in
      (r, rw (peek_at syn law (opening brace) s _ e, parse_body) (rw run), k)
  parse_body-tokens fuel (some values) s l h e =
      let content = syn.from_tokens (values_tokens syn values) in
      let (r, run, k) = law.delimited_lem brace s content l e in
      let of_values : parse_values syn fuel content ≡ parsed values =
        parse_values-tokens fuel values content h.1
          (law.tokens-from_tokens (values_tokens syn values)) h.0 in
      (r, rw (peek_at syn law (opening brace) s _ e, parse_body) (rw run (rw of_values)), k)

  AreValues-mono :
      (n fuel : ℕ) (values : Option (List (Str × Str)))
      → n ≤ fuel
      → AreValues syn n values
      → AreValues syn fuel values
  AreValues-mono n fuel none b h = tt
  AreValues-mono n fuel (some values) b h = (h.0, omega (arith, b, h.1))

  -- No comma follows a tag.
  tags-comma : (ts : List (TagDef Visibility)) → starts Keyword.comma (tags_tokens syn ts) ≡ false
  tags-comma [] = refl
  tags-comma (t ∷ ts) = elim (law.visibility_tokens-first t.vis) [
    | inl e ↦ rw e
    | inr (l, e) ↦ rw e
  ]

  -- From a stream that holds the tokens of tags with identifiers for names, `define_tags!` parses
  -- those tags, where the fuel exceeds their number by more than that of the values of each.
  pub parse_tags-tokens :
      (fuel n : ℕ) (ts : List (TagDef Visibility)) (s : Stream)
      → 1 ≤ n
      → length ts + n ≤ fuel
      → syn.tokens s ≡ tags_tokens syn ts
      → All (IsTagDef syn n) ts
      → parse_tags syn fuel s ≡ parsed ts
  unfolding parse_tags skip
  parse_tags-tokens zero n ts s b f e h = absurd (omega (arith, b, f))
  parse_tags-tokens (suc fuel) n [] s b f e h = rw (is_empty_at syn law s [] e, parse_tags)
  parse_tags-tokens (suc fuel) n (t ∷ ts) s b f e h =
      let rest = tags_tokens syn ts in
      let l2 = lit_str t.export_name ∷ body_token syn t.values ∷ rest in
      let (r1, e1, k1) =
        law.parse_visibility_lem s t.vis t.ident (punct (codes "=>") ∷ l2) e h.0.ident in
      let (r2, e2, k2) = law.parse_ident_lem r1 t.ident (punct (codes "=>") ∷ l2) k1 h.0.ident in
      let (r3, e3, k3) = law.parse_mark_lem Keyword.arrow r2 (punct (codes "=>")) l2 k2 refl in
      let (r4, e4, k4) =
        law.parse_lit_str_lem r3 t.export_name (body_token syn t.values ∷ rest) k3 in
      let (r5, e5, k5) =
        parse_body-tokens fuel t.values r4 rest
          (AreValues-mono n fuel t.values (omega (arith, f)) h.0.values) k4 in
      rw (is_empty_at syn law s _ e ∙ visibility_not_empty syn law t.vis t.ident _, parse_tags)
        (rw e1 (
          rw e2 (
            rw e3 (
              rw e4 (
                rw e5 (
                  rw (peek_at syn law Keyword.comma r5 _ k5 ∙ tags-comma ts, skip)
                    (rw (parse_tags-tokens fuel n ts r5 b (omega (arith, f)) k5 h.1))))))))
