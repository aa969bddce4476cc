-- ===== src/Sketch/Udd/Ranks.antt =====
-- src/aggregator/sketch.rs: `UDDSketch::estimate_quantile` against the keys that the sketch holds,
-- and the merge of two sketches as the union of their keys.
use mathlib.Core.List.{map-append}
use mathlib.Core.Path.{ap₂}
use chalk_metrics.Float.{Float}
use chalk_metrics.Prelude.{
  ℕ, ◌+◌, ◌≤◌, ◌<◌, ◌≡◌, ◌⊎◌, ◌&&◌, refl, ap, sym, ◌∙◌, true, false, List, [], ◌∷◌, ◌++◌, map,
  length, arith, inl, inr, ok, Returns, subst, if◌then◌else◌, leb, ◌==◌, nat_eq, ◌^◌,
}
use chalk_metrics.Prelude.Int.{u64_mod}
use chalk_metrics.Sketch.Key.{SketchHashKey}
use chalk_metrics.Sketch.Links.Counted.{
  count_lt, count_le, ArePositive, counts-tallied, sum-tallied, tallied-ArePositive,
}
use chalk_metrics.Sketch.Links.Represents.{Buckets, IsSorted}
use chalk_metrics.Sketch.Links.Tallied.{
  tallied, add_list, add_list-tallied, compact_key_times, map-compact_key_times,
  compacted_times-tallied,
}
use chalk_metrics.Sketch.Links.Settling.{compacted_times}
use chalk_metrics.Sketch.Links.Totals.{sum, total-sum}
use chalk_metrics.Sketch.Udd.{
  UddSketch, bucket_to_value, last_value, estimate_quantile, merge_sketch,
}
use chalk_metrics.Sketch.Udd.History.{squared-add, widened-add}
use chalk_metrics.Sketch.Udd.Shrink.{squared, widened}
use chalk_metrics.Sketch.Udd.Merge.{merge_sketch-Merges}
use chalk_metrics.Sketch.Udd.Quantile.{wanted, bucket_to_value-ok, estimate_quantile-HasRank}
use chalk_metrics.Sketch.Udd.Values.{IsSketch}

module _ ⦃fl : Float⦄ where
  open fl use {F}

  -- The value of the bucket of the key that has a rank among the keys: fewer than `rank` of them
  -- are below it, or none is, and `rank` of them at least are not above it.
  pub record IsRanked (s : UddSketch F) (ks : List SketchHashKey) (rank : ℕ) (v : F) : Type 0 where
    pub bucket : SketchHashKey
    pub value : bucket_to_value s bucket ≡ ok v
    pub below : (count_lt bucket ks ≡ 0) ⊎ (count_lt bucket ks < rank)
    pub reached : rank ≤ count_le bucket ks

  -- The last bucket of a list.
  record IsLast (s : UddSketch F) (l : Buckets) (v : F) : Type 0 where
    pub before : Buckets
    pub bucket : SketchHashKey
    pub count : ℕ
    pub split : l ≡ before ++ (bucket, count) ∷ []
    pub value : bucket_to_value s bucket ≡ ok v

  last_value-cons :
      (s : UddSketch F) (k : SketchHashKey) (c : ℕ) (l : Buckets)
      → IsSorted ((k, c) ∷ l)
      → Returns (last_value s ((k, c) ∷ l)) (IsLast s ((k, c) ∷ l))
  unfolding last_value
  last_value-cons s k c [] h =
      let (v, run, _) = bucket_to_value-ok s k h.1 in
      (v, run, record { before = []; bucket = k; count = c; split = refl; value = run })
  last_value-cons s k c ((j, d) ∷ l) h =
      let (v, run, r) = last_value-cons s j d l h.2 in
      (
        v,
        run,
        record {
          before = (k, c) ∷ r.before;
          bucket = r.bucket;
          count = r.count;
          split = ap (λ x. (k, c) ∷ x) r.split;
          value = r.value;
        },
      )

  sum_snoc : (l : Buckets) (k : SketchHashKey) (c : ℕ) → sum (l ++ (k, c) ∷ []) ≡ sum l + c
  sum_snoc [] k c = omega arith
  sum_snoc ((j, d) ∷ l) k c = omega (arith, sum_snoc l k c)

  last_positive : (l : Buckets) (k : SketchHashKey) (c : ℕ) → ArePositive (l ++ (k, c) ∷ []) → 0 < c
  last_positive [] k c p = p.0
  last_positive (e ∷ l) k c p = last_positive l k c p.1

  last_value-IsLast :
      (s : UddSketch F) (l : Buckets)
      → IsSorted l
      → 0 < sum l
      → Returns (last_value s l) (IsLast s l)
  last_value-IsLast s [] sorted some = absurd (omega arith)
  last_value-IsLast s ((k, c) ∷ l) sorted some = last_value-cons s k c l sorted

  -- The rank that the estimate is for: the wanted one, but the number of values at most.
  abbrev pub rank_of : UddSketch F → F → ℕ
  rank_of s quantile =
      if leb s.num_values (wanted s quantile) then s.num_values else wanted s quantile

  module _ (s : UddSketch F) (ks : List SketchHashKey) (inv : IsSketch s (tallied ks))
      (few : length ks < u64_mod) where
    num_values-length : s.num_values ≡ length ks
    num_values-length = omega (arith, inv.counted, total-sum (tallied ks), sum-tallied ks few)

    bucket-IsRanked :
        (rank : ℕ) (v : F) (b : SketchHashKey) (c : ℕ) (before after : Buckets)
        → tallied ks ≡ before ++ ((b, c) ∷ after)
        → bucket_to_value s b ≡ ok v
        → (before ≡ []) ⊎ (sum before < rank)
        → rank ≤ sum before + c
        → IsRanked s ks rank v
    bucket-IsRanked rank v b c before after split run below reached =
        let (lt, le) = counts-tallied ks before b c after few inv.represents.sorted split in
        record {
          bucket = b;
          value = run;
          below = elim below [
            | inl e ↦ let z : sum before ≡ 0 = ap sum e in inl (lt ∙ z)
            | inr h ↦ inr (omega (arith, lt, h))
          ];
          reached = omega (arith, le, reached);
        }

    -- Let a sketch be in order over the tally of fewer than 2 ^ 64 keys, one at least, and let a
    -- quantile be between 0 and 1. Then the estimate returns, without a panic, the value of the
    -- bucket of a key that has the rank (`rank_of`) among all the keys.
    pub estimate_quantile-IsRanked :
        (quantile : F)
        → 0 < length ks
        → (fl.le fl.zero quantile && fl.le quantile fl.one) ≡ true
        → Returns (estimate_quantile s quantile) (IsRanked s ks (rank_of s quantile))
    estimate_quantile-IsRanked quantile some range =
        elim (estimate_quantile-HasRank s (tallied ks) quantile inv range) [
          | inl (last, run) ↦
              let e : rank_of s quantile ≡ s.num_values = ground arith in
              let whole = sum-tallied ks few in
              let (v, run', r) =
                last_value-IsLast s (tallied ks) inv.represents.sorted (omega (arith, whole)) in
              let all : sum (tallied ks) ≡ sum r.before + r.count =
                ap sum r.split ∙ sum_snoc r.before r.bucket r.count in
              let own : 0 < r.count =
                last_positive r.before r.bucket r.count
                  (subst ArePositive r.split (tallied-ArePositive ks few)) in
              (
                v,
                run ∙ run',
                subst (λ n. IsRanked s ks n v) (sym e)
                    (bucket-IsRanked s.num_values v r.bucket r.count r.before [] r.split r.value
                      (inr (omega (arith, num_values-length, whole, all, own)))
                      (omega (arith, num_values-length, whole, all))),
              )
          | inr (lt, (v, run, r)) ↦
              let e : rank_of s quantile ≡ wanted s quantile = ground arith in
              (
                v,
                run,
                subst (λ n. IsRanked s ks n v) (sym e)
                    (bucket-IsRanked (wanted s quantile) v r.bucket r.count r.before r.after r.split
                      r.value r.below r.reached),
              )
        ]

  -- Let two sketches be in order over the tallies of their keys, each with a value at least, with
  -- the same room of seven buckets at least, compacted fewer times than the fuel and than 2 ^ 32,
  -- and let 65 rounds of fuel be given. Then the merge returns, without a panic, a sketch in order
  -- over the tally of the keys of both together, those of each compacted until both have had as
  -- many compactions in all; `gamma` and `alpha` have been changed as often as the keys of the first
  -- have been compacted.
  pub merge_sketch-tallied :
      (fuel : ℕ) (s : UddSketch F) (ks : List SketchHashKey) (o : UddSketch F)
      (js : List SketchHashKey)
      → IsSketch s (tallied ks)
      → IsSketch o (tallied js)
      → s.max_buckets ≡ o.max_buckets
      → 65 ≤ fuel
      → 7 ≤ s.max_buckets
      → s.compactions < fuel
      → o.compactions < fuel
      → s.compactions < 2 ^ 32
      → o.compactions < 2 ^ 32
      → (s.num_values == 0) ≡ false
      → (o.num_values == 0) ≡ false
      → Returns (merge_sketch fuel s o) λ r.
        (own : ℕ) × (others : ℕ) × IsSketch r
          (tallied (map (compact_key_times others) js ++ map (compact_key_times own) ks))
        × (s.compactions + own ≡ o.compactions + others)
        × (r.gamma ≡ squared own s.gamma)
        × (r.alpha ≡ widened own s.alpha)
  merge_sketch-tallied fuel s ks o js inv ino alike f room fs fo cs co own_values other_values =
      let (r, run, m) =
        merge_sketch-Merges fuel s (tallied ks) o (tallied js) inv ino alike f room fs fo cs co
          own_values other_values in
      let a = map (compact_key_times m.others) js in
      let b = map (compact_key_times m.own) ks in
      let joined : add_list (compacted_times m.others (tallied js))
            (compacted_times m.own (tallied ks))
          ≡ tallied (a ++ b) =
        ap₂ add_list (compacted_times-tallied m.others js) (compacted_times-tallied m.own ks)
        ∙ add_list-tallied a b in
      let whole =
        m.buckets
        ∙ ap (compacted_times m.rounds) joined
        ∙ compacted_times-tallied m.rounds (a ++ b)
        ∙ ap tallied (
            map-append (compact_key_times m.rounds) a b
            ∙ ap₂ (λ x y. x ++ y) (map-compact_key_times m.others m.rounds js)
                (map-compact_key_times m.own m.rounds ks)) in
      (
        r,
        run,
        (
          m.own + m.rounds,
          m.others + m.rounds,
          subst (IsSketch r) whole m.sketch,
          omega (arith, m.level),
          m.gamma ∙ squared-add m.own m.rounds s.gamma,
          m.alpha ∙ widened-add m.own m.rounds s.alpha,
        ),
      )
