-- ===== src/Macros/RoundTrip/Metrics.antt =====
-- chalk-metrics-macros/src/lib.rs: parsing the tokens of an input of `define_metrics!`.
use Prim.Native.Nat.{zero}
use chalk_metrics.Macros.{TagRef, MetricDef, MetricGroup, parsed, kind_name}
use chalk_metrics.Macros.Keyword
use chalk_metrics.Macros.Parsing.{
  skip, parse_args, parse_extra_tags, parse_metric, parse_metrics, parse_groups,
}
use chalk_metrics.Macros.Printing.{
  Tokens, tag_list, extra_tokens, metric_tokens, metrics_tokens, args_tokens, groups_tokens,
  IsTagRef, IsMetricDef, IsNamespaceArg, IsMetricGroup,
}
use chalk_metrics.Macros.Syn.{
  Syn, IsSyn, IsPath, Reads, ident, punct, lit_str, group, path_tokens, parenthesis, brace,
}
use chalk_metrics.Prelude.{
  ℕ, suc, ◌+◌, ◌-◌, ◌≤◌, inl, inr, Option-cases, ◌<◌, ◌≡◌, refl, ap, ◌∙◌, false, List, [], ◌∷◌,
  ◌++◌, length, Option, none, some, All, arith,
}
use chalk_metrics.Prelude.Text.{Str, codes}
use chalk_metrics.Macros.RoundTrip.{
  parse_metric_kind-kind_name, peek_at, is_empty_at, visibility_not_empty, parse_tag_list-tokens,
}

module _ (syn : Syn) (law : IsSyn syn) where
  open syn use {Stream, Visibility}

  parse_extra_tags-tokens :
      (ts : List TagRef) (s : Stream) (l : Tokens syn)
      → syn.tokens s ≡ extra_tokens syn ts (punct (codes ";") ∷ l)
      → All (IsTagRef syn) ts
      → Reads syn (parse_extra_tags syn s) ts (punct (codes ";") ∷ l)
  unfolding parse_extra_tags
  parse_extra_tags-tokens [] s l e h =
      (s, rw (peek_at syn law Keyword.comma s _ e, parse_extra_tags), e)
  parse_extra_tags-tokens (t ∷ ts) s l e h =
      let behind = punct (codes ";") ∷ l in
      let list = tag_list syn (t ∷ ts) in
      let (r, run, k) =
        law.parse_mark_lem Keyword.comma s (punct (codes ","))
          (ident (codes "tags") ∷ punct (codes "+=") ∷ list ∷ behind) e refl in
      let (r', run', k') =
        law.parse_mark_lem Keyword.tags r (ident (codes "tags"))
          (punct (codes "+=") ∷ list ∷ behind) k refl in
      let (q, go, j) =
        law.parse_mark_lem Keyword.plus_equals r' (punct (codes "+=")) (list ∷ behind) k' refl in
      let (q', go', j') = parse_tag_list-tokens syn law (t ∷ ts) q behind j h in
      (
        q',
        rw (peek_at syn law Keyword.comma s _ e, parse_extra_tags)
            (rw run (rw (peek_at syn law Keyword.tags r _ k) (rw run' (rw go go')))),
        j',
      )

  parse_metric-tokens :
      (m : MetricDef Visibility) (s : Stream) (l : Tokens syn)
      → syn.tokens s ≡ metric_tokens syn m l
      → IsMetricDef syn m
      → Reads syn (parse_metric syn s) m l
  unfolding parse_metric
  parse_metric-tokens m s l e h =
      let l6 = extra_tokens syn m.extra_tags (punct (codes ";") ∷ l) in
      let l5 = punct (codes ",") ∷ lit_str m.description ∷ l6 in
      let l3 = ident m.ident ∷ punct (codes "=>") ∷ lit_str m.name ∷ l5 in
      let (r1, e1, k1) = law.parse_visibility_lem s m.vis (kind_name m.kind) l3 e h.kind in
      let (r2, e2, k2) = law.parse_ident_lem r1 (kind_name m.kind) l3 k1 h.kind in
      let (r3, e3, k3) =
        law.parse_ident_lem r2 m.ident (punct (codes "=>") ∷ lit_str m.name ∷ l5) k2 h.ident in
      let (r4, e4, k4) =
        law.parse_mark_lem Keyword.arrow r3 (punct (codes "=>")) (lit_str m.name ∷ l5) k3 refl in
      let (r5, e5, k5) = law.parse_lit_str_lem r4 m.name l5 k4 in
      let (r6, e6, k6) =
        law.parse_mark_lem Keyword.comma r5 (punct (codes ",")) (lit_str m.description ∷ l6) k5
          refl in
      let (r7, e7, k7) = law.parse_lit_str_lem r6 m.description l6 k6 in
      let (r8, e8, k8) = parse_extra_tags-tokens m.extra_tags r7 l k7 h.extra_tags in
      let (r9, e9, k9) = law.parse_mark_lem Keyword.semicolon r8 (punct (codes ";")) l k8 refl in
      (
        r9,
        rw e1 (
            rw e2 (
              rw (parse_metric_kind-kind_name m.kind)
                (rw e3 (rw e4 (rw e5 (rw e6 (rw e7 (rw e8 (rw e9))))))))),
        k9,
      )

  parse_metrics-tokens :
      (fuel : ℕ) (ms : List (MetricDef Visibility)) (s : Stream)
      → length ms < fuel
      → syn.tokens s ≡ metrics_tokens syn ms
      → All (IsMetricDef syn) ms
      → parse_metrics syn fuel s ≡ parsed ms
  unfolding parse_metrics
  parse_metrics-tokens zero ms s f e h = absurd (omega (arith, f))
  parse_metrics-tokens (suc fuel) [] s f e h = rw (is_empty_at syn law s [] e, parse_metrics)
  parse_metrics-tokens (suc fuel) (m ∷ ms) s f e h =
      let full : syn.is_empty s ≡ false =
        is_empty_at syn law s _ e ∙ visibility_not_empty syn law m.vis (kind_name m.kind) _ in
      let (r, run, k) = parse_metric-tokens m s (metrics_tokens syn ms) e h.0 in
      rw (full, parse_metrics)
        (rw run (rw (parse_metrics-tokens fuel ms r (omega (arith, f)) k h.1)))

  parse_args-tags :
      (fuel : ℕ) (ns : Option (List Str)) (ts : List TagRef) (s : Stream)
      → syn.tokens s ≡ ident (codes "tags") ∷ punct (codes "=") ∷ tag_list syn ts ∷ []
      → All (IsTagRef syn) ts
      → parse_args syn (suc (suc fuel)) s ns none ≡ parsed (ns, some ts)
  unfolding parse_args skip
  parse_args-tags fuel ns ts s e h =
      let (r, run, k) =
        law.parse_mark_lem Keyword.tags s (ident (codes "tags"))
          (punct (codes "=") ∷ tag_list syn ts ∷ []) e refl in
      let (r', run', k') =
        law.parse_mark_lem Keyword.equals r (punct (codes "=")) (tag_list syn ts ∷ []) k refl in
      let (q, go, j) = parse_tag_list-tokens syn law ts r' [] k' h in
      rw (is_empty_at syn law s _ e, parse_args)
        (rw (peek_at syn law Keyword.namespace s _ e) (
          rw (peek_at syn law Keyword.tags s _ e) (
            rw run (
              rw run' (
                rw go (
                  rw (peek_at syn law Keyword.comma q [] j, skip)
                    (rw (is_empty_at syn law q [] j, parse_args))))))))

  parse_args-tokens :
      (fuel : ℕ) (g : MetricGroup Visibility) (s : Stream)
      → syn.tokens s ≡ args_tokens syn g
      → IsNamespaceArg syn g.namespace
      → All (IsTagRef syn) g.tags
      → parse_args syn (suc (suc (suc fuel))) s none none ≡ parsed (g.namespace, some g.tags)
  unfolding parse_args skip
  parse_args-tokens fuel g s e n h = elim (Option-cases g.namespace) [
    | inl bare ↦ rw bare (parse_args-tags (suc fuel) none g.tags s (e ∙ rw bare) h)
    | inr (p, named) ↦
        let last = ident (codes "tags") ∷ punct (codes "=") ∷ tag_list syn g.tags ∷ [] in
        let behind = path_tokens p ++ (punct (codes ",") ∷ last) in
        let e' : syn.tokens s ≡ ident (codes "namespace") ∷ punct (codes "=") ∷ behind =
          e ∙ rw named in
        let is_path : IsPath syn p = rw named at n in
        let (r, run, k) =
          law.parse_mark_lem Keyword.namespace s (ident (codes "namespace"))
            (punct (codes "=") ∷ behind) e' refl in
        let (r', run', k') =
          law.parse_mark_lem Keyword.equals r (punct (codes "=")) behind k refl in
        let (q, go, j) =
          law.parse_path_lem r' p (punct (codes ",") ∷ last) k' is_path (refl, refl, refl) in
        let (q', go', j') = law.parse_mark_lem Keyword.comma q (punct (codes ",")) last j refl in
        rw named (
          rw (is_empty_at syn law s _ e', parse_args)
            (rw (peek_at syn law Keyword.namespace s _ e') (
              rw run (
                rw run' (
                  rw go (
                    rw (peek_at syn law Keyword.comma q _ j, skip)
                      (rw go' (parse_args-tags fuel (some p) g.tags q' j' h))))))))
  ]

  -- From a stream that holds the tokens of well-formed groups, `define_metrics!` parses those
  -- groups, where the fuel exceeds their number by that of the metrics of each, and by three.
  pub parse_groups-tokens :
      (fuel n : ℕ) (gs : List (MetricGroup Visibility)) (s : Stream)
      → 3 ≤ n
      → length gs + n ≤ fuel
      → syn.tokens s ≡ groups_tokens syn gs
      → All (IsMetricGroup syn n) gs
      → parse_groups syn fuel s ≡ parsed gs
  unfolding parse_groups
  parse_groups-tokens zero n gs s b f e h = absurd (omega (arith, b, f))
  parse_groups-tokens (suc fuel) n [] s b f e h = rw (is_empty_at syn law s [] e, parse_groups)
  parse_groups-tokens (suc fuel) n (g ∷ gs) s b f e h =
      let args = syn.from_tokens (args_tokens syn g) in
      let content = syn.from_tokens (metrics_tokens syn g.metrics) in
      let l2 = group brace content ∷ groups_tokens syn gs in
      let (r1, e1, k1) =
        law.parse_mark_lem Keyword.group s (ident (codes "group")) (group parenthesis args ∷ l2) e
          refl in
      let (r2, e2, k2) = law.delimited_lem parenthesis r1 args l2 k1 in
      let (r3, e3, k3) = law.delimited_lem brace r2 content (groups_tokens syn gs) k2 in
      let (three, more) = at_least_three fuel (omega (arith, b, f)) in
      let of_args : parse_args syn fuel args none none ≡ parsed (g.namespace, some g.tags) =
        ap (λ x. parse_args syn x args none none) more
        ∙ parse_args-tokens three g args (law.tokens-from_tokens (args_tokens syn g)) h.0.namespace
            h.0.tags in
      let of_metrics : parse_metrics syn fuel content ≡ parsed g.metrics =
        parse_metrics-tokens fuel g.metrics content (omega (arith, b, f, h.0.few))
          (law.tokens-from_tokens (metrics_tokens syn g.metrics)) h.0.metrics in
      rw (is_empty_at syn law s _ e, parse_groups)
        (rw e1 (
          rw e2 (
            rw of_args (
              rw e3 (
                rw of_metrics
                  (rw (parse_groups-tokens fuel n gs r3 b (omega (arith, f)) k3 h.1)))))))
    where
      at_least_three : (a : ℕ) → 3 ≤ a → (c : ℕ) × (a ≡ suc (suc (suc c)))
      at_least_three a t = (a - 3, omega (arith, t))
