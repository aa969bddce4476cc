-- ===== src/Sketch/Udd/Shrink.antt =====
-- src/aggregator/sketch.rs: the loop of compactions in `add_value` and `merge_sketch`.
use Prim.Native.Nat.{zero as nat_zero}
use chalk_metrics.Float.{Float}
use chalk_metrics.Prelude.{
  ℕ, suc, ◌+◌, ◌%◌, ◌^◌, ◌≤◌, ◌<◌, ◌≡◌, refl, ap, ◌∙◌, true, false, length, arith, inl, inr,
  Bool-cases, ltb, Returns,
}
use chalk_metrics.Prelude.Int.{pos}
use chalk_metrics.Sketch.Links.{SketchHashMap, len}
use chalk_metrics.Sketch.Links.Compaction.{compact-Represents}
use chalk_metrics.Sketch.Links.Iteration.{len-Represents}
use chalk_metrics.Sketch.Links.Represents.{Buckets, compacted, Represents}
use chalk_metrics.Sketch.Links.Settling.{compacted_times, length-settled-le}
use chalk_metrics.Sketch.Links.Totals.{total, total-compacted}
use chalk_metrics.Sketch.Udd.{UddSketch, compact_buckets, shrink}

-- The compactions change only the buckets, the error bound and their own count.
pub record SameTallies {F : Type 0} (s r : UddSketch F) : Type 0 where
  pub max_buckets : r.max_buckets ≡ s.max_buckets
  pub num_values : r.num_values ≡ s.num_values
  pub values_sum : r.values_sum ≡ s.values_sum
  pub min : r.min ≡ s.min
  pub max : r.max ≡ s.max
  pub zero_count : r.zero_count ≡ s.zero_count

pub SameTallies-refl : {F : Type 0} (s : UddSketch F) → SameTallies s s
SameTallies-refl s = record {
  max_buckets = refl;
  num_values = refl;
  values_sum = refl;
  min = refl;
  max = refl;
  zero_count = refl;
}

pub SameTallies-trans :
    {F : Type 0} (s r t : UddSketch F) → SameTallies s r → SameTallies r t → SameTallies s t
SameTallies-trans s r t p q = record {
  max_buckets = q.max_buckets ∙ p.max_buckets;
  num_values = q.num_values ∙ p.num_values;
  values_sum = q.values_sum ∙ p.values_sum;
  min = q.min ∙ p.min;
  max = q.max ∙ p.max;
  zero_count = q.zero_count ∙ p.zero_count;
}

pub total-compacted_times : (n : ℕ) (l : Buckets) → total (compacted_times n l) ≡ total l
total-compacted_times nat_zero l = refl
total-compacted_times (suc n) l = total-compacted_times n (compacted l) ∙ total-compacted l

module _ ⦃fl : Float⦄ where
  open fl use {F}

  -- What a number of compactions makes of `gamma` and of the error bound `alpha`.
  abbrev pub squared : ℕ → F → F
  squared nat_zero gamma = gamma
  squared (suc n) gamma = squared n (fl.mul gamma gamma)

  abbrev pub widened : ℕ → F → F
  widened nat_zero alpha = alpha
  widened (suc n) alpha =
      widened n (fl.div (fl.mul fl.two alpha) (fl.add fl.one (fl.powi alpha (pos 2))))

  -- What a number of compactions makes of a sketch over the buckets `l`.
  pub record Compacts (s : UddSketch F) (l : Buckets) (n : ℕ) (r : UddSketch F) : Type 0 where
    pub represents : Represents r.buckets (compacted_times n l)
    pub same : SameTallies s r
    pub gamma : r.gamma ≡ squared n s.gamma
    pub alpha : r.alpha ≡ widened n s.alpha

  abbrev pub after_compact : UddSketch F → SketchHashMap → UddSketch F
  after_compact s b = record s {
    buckets = b;
    compactions = (s.compactions + 1) % 2 ^ 32;
    gamma = fl.mul s.gamma s.gamma;
    alpha = fl.div (fl.mul fl.two s.alpha) (fl.add fl.one (fl.powi s.alpha (pos 2)));
  }

  after_compact-SameTallies :
      (s : UddSketch F) (b : SketchHashMap) → SameTallies s (after_compact s b)
  after_compact-SameTallies s b = record {
    max_buckets = refl;
    num_values = refl;
    values_sum = refl;
    min = refl;
    max = refl;
    zero_count = refl;
  }

  pub compact_buckets_lem :
      (s : UddSketch F) (l : Buckets)
      → Represents s.buckets l
      → Returns
          (compact_buckets s)
          λ r. Compacts s l 1 r × (r.compactions ≡ (s.compactions + 1) % 2 ^ 32)
  unfolding compact_buckets
  compact_buckets_lem s l rep =
      let (b, run, rep') = compact-Represents s.buckets l rep in
      (
        after_compact s b,
        rw run,
        (
          record {
            represents = rep';
            same = after_compact-SameTallies s b;
            gamma = refl;
            alpha = refl;
          },
          refl,
        ),
      )

  -- One compaction and some more.
  pub Compacts-suc :
      (s : UddSketch F) (l : Buckets) (m : ℕ) (r t : UddSketch F)
      → Compacts s l 1 r
      → Compacts r (compacted l) m t
      → Compacts s l (suc m) t
  Compacts-suc s l m r t c d = record {
    represents = d.represents;
    same = SameTallies-trans s r t c.same d.same;
    gamma = d.gamma ∙ ap (squared m) c.gamma;
    alpha = d.alpha ∙ ap (widened m) c.alpha;
  }

  -- What the loop makes of a sketch: some number of compactions, after which the buckets are few.
  abbrev pub Shrinks : UddSketch F → Buckets → UddSketch F → Type 0
  Shrinks s l r = (m : ℕ) × Compacts s l m r × (length (compacted_times m l) ≤ s.max_buckets)

  shrink_done :
      (fuel : ℕ) (s : UddSketch F) (l : Buckets)
      → Represents s.buckets l
      → length l ≤ s.max_buckets
      → Returns (shrink (suc fuel) s) (Shrinks s l)
  unfolding shrink
  shrink_done fuel s l rep few = (
    s,
    let e : ltb s.max_buckets (len s.buckets) ≡ false =
          ground (arith, len-Represents s.buckets l rep) in
        rw (e, shrink),
    (0, record { represents = rep; same = SameTallies-refl s; gamma = refl; alpha = refl }, few),
  )

  shrink_more :
      (fuel : ℕ) (s : UddSketch F) (l : Buckets)
      → Represents s.buckets l
      → s.max_buckets < length l
      → ((r : UddSketch F) → Compacts s l 1 r → Returns (shrink fuel r) (Shrinks r (compacted l)))
      → Returns (shrink (suc fuel) s) (Shrinks s l)
  unfolding shrink
  shrink_more fuel s l rep many rest =
      let e : ltb s.max_buckets (len s.buckets) ≡ true =
        ground (arith, len-Represents s.buckets l rep) in
      let (r, run, (c, _)) = compact_buckets_lem s l rep in
      let (t, run', (m, d, few)) = rest r c in
      (
        t,
        rw (e, shrink) (rw run run'),
        (suc m, Compacts-suc s l m r t c d, rw c.same.max_buckets at few),
      )

  -- The loop ends once `n` compactions leave few enough buckets.
  pub shrink_enough :
      (fuel n : ℕ) (s : UddSketch F) (l : Buckets)
      → n < fuel
      → Represents s.buckets l
      → length (compacted_times n l) ≤ s.max_buckets
      → Returns (shrink fuel s) (Shrinks s l)
  shrink_enough nat_zero n s l f rep few = absurd (omega arith)
  shrink_enough (suc fuel) nat_zero s l f rep few = shrink_done fuel s l rep few
  shrink_enough (suc fuel) (suc n) s l f rep few =
      elim (Bool-cases (ltb s.max_buckets (length l))) [
        | inr h ↦ shrink_done fuel s l rep (ground arith)
        | inl h ↦ shrink_more fuel s l rep (ground arith) λ r c.
            shrink_enough fuel n r (compacted l) (omega arith) c.represents
              (rw c.same.max_buckets few)
      ]

  -- With 65 rounds of fuel and room for seven buckets, the loop of compactions ends on any map
  -- that represents a sorted list: after some number of compactions the buckets are few enough,
  -- and the tallies are as before.
  pub shrink_total :
      (fuel : ℕ) (s : UddSketch F) (l : Buckets)
      → 65 ≤ fuel
      → 7 ≤ s.max_buckets
      → Represents s.buckets l
      → Returns (shrink fuel s) (Shrinks s l)
  shrink_total fuel s l f room rep =
      shrink_enough fuel 64 s l f rep (omega (arith, length-settled-le l rep.sorted))
