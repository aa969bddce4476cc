-- ===== src/Sketch/Udd/Quantile.antt =====
-- src/aggregator/sketch.rs: `UDDSketch::estimate_quantile` and the iterator that it follows.
use chalk_metrics.Float.{Float}
use chalk_metrics.Prelude.{
  ℕ, ◌+◌, ◌-◌, ◌≤◌, ◌<◌, ◌≡◌, refl, ap, ◌∙◌, ◌⊎◌, ◌&&◌, true, false, [], ◌∷◌, ◌++◌, length, arith,
  inl, inr, Bool-cases, leb, leb→le, leb-false→lt, ok, panic, Returns,
}
use chalk_metrics.Prelude.Int.{u64_add}
use chalk_metrics.Sketch.Key.{SketchHashKey, negative, zero, positive, invalid, Lt, partial_cmp}
use chalk_metrics.Sketch.Links.Compacted.{lt-invalid}
use chalk_metrics.Sketch.Links.Iteration.{iter-Represents}
use chalk_metrics.Sketch.Links.Represents.{Buckets, IsSorted}
use chalk_metrics.Sketch.Links.Totals.{sum, total-sum}
use chalk_metrics.Sketch.Udd.{UddSketch, bucket_to_value, last_value, find_rank, estimate_quantile}
use chalk_metrics.Sketch.Udd.Values.{IsSketch}

nonempty : (l : Buckets) → 0 < sum l → 0 < length l
nonempty [] h = absurd (omega arith)
nonempty ((k, c) ∷ l) h = omega arith

before_lt :
    (k : SketchHashKey) (c rank : ℕ) (l : Buckets)
    → c < rank
    → (l ≡ []) ⊎ (sum l < rank - c)
    → sum ((k, c) ∷ l) < rank
before_lt k c rank l h (inl e) = let f : sum l ≡ 0 = ap sum e in omega arith
before_lt k c rank l h (inr e) = omega arith

module _ ⦃fl : Float⦄ where
  open fl use {F}

  -- The value of a bucket whose range of ranks holds `rank`: the counts before it are fewer, and
  -- with its own they reach the rank.
  pub record HasRank (s : UddSketch F) (l : Buckets) (rank : ℕ) (v : F) : Type 0 where
    pub before : Buckets
    pub bucket : SketchHashKey
    pub count : ℕ
    pub after : Buckets
    pub split : l ≡ before ++ (bucket, count) ∷ after
    pub below : (before ≡ []) ⊎ (sum before < rank)
    pub reached : rank ≤ sum before + count
    pub value : bucket_to_value s bucket ≡ ok v

  pub bucket_to_value-ok :
      (s : UddSketch F) (k : SketchHashKey)
      → Lt k invalid
      → Returns (bucket_to_value s k) (λ v. Unit {0})
  unfolding bucket_to_value partial_cmp
  bucket_to_value-ok s zero h = (_, refl, tt)
  bucket_to_value-ok s (positive i) h = (_, refl, tt)
  bucket_to_value-ok s (negative i) h = (_, refl, tt)
  bucket_to_value-ok s invalid h = cc

  find_rank-HasRank :
      (s : UddSketch F) (rank : ℕ) (l : Buckets)
      → IsSorted l
      → 0 < length l
      → rank ≤ sum l
      → Returns (find_rank s rank l) (HasRank s l rank)
  unfolding find_rank
  find_rank-HasRank s rank [] sorted some h = absurd (omega arith)
  find_rank-HasRank s rank ((k, c) ∷ l) sorted some h = elim (Bool-cases (leb rank c)) [
    | inl here ↦
        let (v, run, _) = bucket_to_value-ok s k (lt-invalid k c l sorted) in
        (
          v,
          rw here run,
          record {
            before = [];
            bucket = k;
            count = c;
            after = l;
            split = refl;
            below = inl refl;
            reached = omega (arith, leb→le rank c here);
            value = run;
          },
        )
    | inr later ↦
        let over : c < rank = leb-false→lt rank c later in
        let (v, run, r) =
          find_rank-HasRank s (rank - c) l sorted.2 (nonempty l (omega arith)) (omega arith) in
        (
          v,
          rw later run,
          record {
            before = (k, c) ∷ r.before;
            bucket = r.bucket;
            count = r.count;
            after = r.after;
            split = ap (λ x. (k, c) ∷ x) r.split;
            below = inr (before_lt k c rank r.before over r.below);
            reached = omega (arith, r.reached);
            value = r.value;
          },
        )
  ]

  -- The rank that the code looks for.
  abbrev pub wanted : UddSketch F → F → ℕ
  wanted s quantile = u64_add (fl.to_u64 (fl.mul (fl.of_u64 s.num_values) quantile)) 1

  -- On a sketch in order and a quantile between 0 and 1 the estimate never panics. If the wanted
  -- rank is the number of values or more, it is the value of the last bucket (`last_value`);
  -- otherwise it is the value of the bucket that holds the rank.
  pub estimate_quantile-HasRank :
      (s : UddSketch F) (l : Buckets) (quantile : F)
      → IsSketch s l
      → (fl.le fl.zero quantile && fl.le quantile fl.one) ≡ true
      → ((s.num_values ≤ wanted s quantile) × (estimate_quantile s quantile ≡ last_value s l))
        ⊎ ((wanted s quantile < s.num_values)
            × Returns (estimate_quantile s quantile) (HasRank s l (wanted s quantile)))
  unfolding estimate_quantile
  estimate_quantile-HasRank s l quantile inv range =
      let buckets = iter-Represents s.buckets l inv.represents in
      elim (Bool-cases (leb s.num_values (wanted s quantile))) [
        | inl last ↦ inl (leb→le _ _ last, rw range (rw buckets (rw last)))
        | inr inside ↦
            let lt : wanted s quantile < s.num_values = leb-false→lt _ _ inside in
            let within : s.num_values ≤ sum l = omega (arith, inv.counted, total-sum l) in
            let (v, run, r) =
              find_rank-HasRank s (wanted s quantile) l inv.represents.sorted
                (nonempty l (omega arith)) (omega arith) in
            inr (lt, (v, rw range (rw buckets (rw inside run)), r))
      ]

  last_value-ok :
      (s : UddSketch F) (l : Buckets) → IsSorted l → Returns (last_value s l) (λ v. Unit {0})
  unfolding last_value
  last_value-ok s [] h = (fl.zero, refl, tt)
  last_value-ok s ((k, c) ∷ []) h = bucket_to_value-ok s k h.1
  last_value-ok s ((k, c) ∷ e ∷ l) h = last_value-ok s (e ∷ l) h.2

  -- On a sketch in order `estimate_quantile` either returns, or the quantile is out of range and
  -- it panics.
  pub estimate_quantile-panic :
      (s : UddSketch F) (l : Buckets) (quantile : F)
      → IsSketch s l
      → (Returns (estimate_quantile s quantile) (λ v. Unit {0}))
        ⊎ (((fl.le fl.zero quantile && fl.le quantile fl.one) ≡ false)
            × (estimate_quantile s quantile ≡ panic))
  estimate_quantile-panic s l quantile inv =
      elim (Bool-cases (fl.le fl.zero quantile && fl.le quantile fl.one)) [
        | inr out ↦ inr (out, unfold estimate_quantile in rw out)
        | inl range ↦ elim (estimate_quantile-HasRank s l quantile inv range) [
          | inl (_, e) ↦
              let (v, run, u) = last_value-ok s l inv.represents.sorted in inl (v, e ∙ run, u)
          | inr (_, (v, run, _)) ↦ inl (v, run, tt)
        ]
      ]
