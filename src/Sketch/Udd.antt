-- ===== src/Sketch/Udd.antt =====
-- src/aggregator/sketch.rs: `UDDSketch`. `assert!`, `panic!` and `unreachable!` are panics of the
-- outcome, and the loops that compact take fuel.
pub mod Shrink
pub mod Values
pub mod Quantile
pub mod Merge
pub mod History
pub mod Ranks
pub mod Getters
use Prim.Native.Nat.{zero as nat_zero}
use chalk_metrics.Float.{Float}
use chalk_metrics.Prelude.{
  ℕ, suc, ◌-◌, ◌%◌, ◌^◌, ◌+◌, Bool, true, false, ◌&&◌, List, [], ◌∷◌, if◌then◌else◌, ◌==◌, leb, ltb,
  nat_eq, Outcome, ok, panic, out_of_fuel, ◌>>=◌, ◌>>◌, assert,
}
use chalk_metrics.Prelude.Int.{pos, u64_add}
use chalk_metrics.Sketch.Key.{SketchHashKey, negative, zero, positive, invalid, key_eq, gt}
use chalk_metrics.Sketch.Links.{SketchHashMap, new, increment, add_count, iter, len, compact}

pub record UddSketch (F : Type 0) : Type 0 where
  pub buckets : SketchHashMap
  pub alpha : F
  pub gamma : F
  pub compactions : ℕ
  pub max_buckets : ℕ
  pub num_values : ℕ
  pub values_sum : F
  pub min : F
  pub max : F
  pub zero_count : ℕ

-- `for (key, value) in other.buckets.iter() { self.buckets.entry(key).count += value; }`
unfoldable pub add_all : SketchHashMap → List (SketchHashKey × ℕ) → Outcome SketchHashMap
add_all m [] = ok m
add_all m ((k, c) ∷ l) = add_count m k c >>= λ r. add_all r l

module _ ⦃fl : Float⦄ where
  open fl use {F}

  abbrev pub empty_sketch : ℕ → F → UddSketch F
  empty_sketch max_buckets initial_error = record {
    buckets = new;
    alpha = initial_error;
    gamma = fl.div (fl.add fl.one initial_error) (fl.sub fl.one initial_error);
    compactions = 0;
    max_buckets = max_buckets;
    num_values = 0;
    values_sum = fl.zero;
    min = fl.largest;
    max = fl.lowest;
    zero_count = 0;
  }

  -- `UDDSketch::new`
  unfoldable pub new_sketch : ℕ → F → Outcome (UddSketch F)
  new_sketch max_buckets initial_error = do
    assert (fl.le fl.smallest_error initial_error && fl.lt initial_error fl.one)
    ok (empty_sketch max_buckets initial_error)

  unfoldable pub key : UddSketch F → F → SketchHashKey
  key s value =
      let negative_value = fl.lt value fl.zero in
      let magnitude = fl.abs value in
      let index = fl.to_i64 (fl.ceil (fl.log magnitude s.gamma)) in
      if fl.eq magnitude fl.zero
      then zero
      else if negative_value
      then negative index
      else positive index

  unfoldable pub compact_buckets : UddSketch F → Outcome (UddSketch F)
  compact_buckets s = do
    buckets ← compact s.buckets
    ok (record s {
      buckets = buckets;
      compactions = (s.compactions + 1) % 2 ^ 32;
      gamma = fl.mul s.gamma s.gamma;
      alpha = fl.div (fl.mul fl.two s.alpha) (fl.add fl.one (fl.powi s.alpha (pos 2)));
    })

  -- `while self.buckets.len() > self.max_buckets as usize { self.compact_buckets(); }`
  unfoldable pub shrink : ℕ → UddSketch F → Outcome (UddSketch F)
  shrink nat_zero s = out_of_fuel
  shrink (suc fuel) s = elim (ltb s.max_buckets (len s.buckets)) [
    | false ↦ ok s
    | true ↦ compact_buckets s >>= shrink fuel
  ]

  -- The fields that `add_value` sets behind its loop.
  unfoldable pub tally : UddSketch F → F → UddSketch F
  tally s value = record s {
    num_values = u64_add s.num_values 1;
    values_sum = fl.add s.values_sum value;
    min = fl.min s.min value;
    max = fl.max s.max value;
    zero_count = if fl.eq value fl.zero then u64_add s.zero_count 1 else s.zero_count;
  }

  unfoldable pub add_value : ℕ → UddSketch F → F → Outcome (UddSketch F)
  unfolding tally
  add_value fuel s value = if fl.is_nan value then ok s else do
    buckets ← increment s.buckets (key s value)
    shrunk ← shrink fuel (record s { buckets = buckets })
    ok (tally shrunk value)

  -- `while self.compactions > other.compactions { other.compact_buckets(); }`
  unfoldable pub catch_up : ℕ → UddSketch F → ℕ → Outcome (UddSketch F)
  catch_up nat_zero s target = out_of_fuel
  catch_up (suc fuel) s target = elim (ltb s.compactions target) [
    | false ↦ ok s
    | true ↦ compact_buckets s >>= λ r. catch_up fuel r target
  ]

  unfoldable pub merge_sketch : ℕ → UddSketch F → UddSketch F → Outcome (UddSketch F)
  merge_sketch fuel s other = do
    assert (s.max_buckets == other.max_buckets)
    if other.num_values == 0 then ok s else if s.num_values == 0 then ok other else do
      other' ← catch_up fuel other s.compactions
      s' ← catch_up fuel s other'.compactions
      values ← iter other'.buckets
      buckets ← add_all s'.buckets values
      shrunk ← shrink fuel (record s' { buckets = buckets })
      ok (record shrunk {
        num_values = u64_add shrunk.num_values other'.num_values;
        values_sum = fl.add shrunk.values_sum other'.values_sum;
        min = fl.min shrunk.min other'.min;
        max = fl.max shrunk.max other'.max;
        zero_count = u64_add shrunk.zero_count other'.zero_count;
      })

  unfoldable pub bucket_to_value : UddSketch F → SketchHashKey → Outcome F
  bucket_to_value s zero = ok fl.zero
  bucket_to_value s (positive i) =
      ok (fl.mul (fl.powf s.gamma (fl.sub (fl.of_i64 i) fl.one)) (fl.add fl.one s.alpha))
  bucket_to_value s (negative i) =
      ok (fl.neg (fl.mul (fl.powf s.gamma (fl.sub (fl.of_i64 i) fl.one)) (fl.add fl.one s.alpha)))
  bucket_to_value s invalid = panic

  -- `self.buckets.iter().last().map(|(key, _)| self.bucket_to_value(key)).unwrap_or(0.0)`
  unfoldable pub last_value : UddSketch F → List (SketchHashKey × ℕ) → Outcome F
  last_value s [] = ok fl.zero
  last_value s ((k, c) ∷ []) = bucket_to_value s k
  last_value s ((k, c) ∷ e ∷ l) = last_value s (e ∷ l)

  -- The loop over the buckets; `unreachable!()` panics.
  unfoldable pub find_rank : UddSketch F → ℕ → List (SketchHashKey × ℕ) → Outcome F
  find_rank s remaining [] = panic
  find_rank s remaining ((k, c) ∷ l) =
      let rest = find_rank s (remaining - c) l in
      if leb remaining c then bucket_to_value s k else rest

  unfoldable pub estimate_quantile : UddSketch F → F → Outcome F
  estimate_quantile s quantile = do
    assert (fl.le fl.zero quantile && fl.le quantile fl.one)
    buckets ← iter s.buckets
    let remaining = u64_add (fl.to_u64 (fl.mul (fl.of_u64 s.num_values) quantile)) 1
    if leb s.num_values remaining then last_value s buckets else find_rank s remaining buckets

  unfoldable pub mean : UddSketch F → F
  mean s = if s.num_values == 0 then fl.zero else fl.div s.values_sum (fl.of_u64 s.num_values)

  -- The loop of `estimate_quantile_at_value` over the buckets.
  unfoldable pub fraction_below : SketchHashKey → ℕ → F → List (SketchHashKey × ℕ) → F
  fraction_below target n count [] = fl.one
  fraction_below target n count ((k, c) ∷ l) =
      let rest = fraction_below target n (fl.add count (fl.of_u64 c)) l in
      if gt target k
      then rest
      else fl.div (if target == k then fl.add count (fl.div (fl.of_u64 c) fl.two) else count)
          (fl.of_u64 n)

  unfoldable pub estimate_quantile_at_value : UddSketch F → F → Outcome F
  estimate_quantile_at_value s value = if s.num_values == 0 then ok fl.zero else do
    buckets ← iter s.buckets
    ok (fraction_below (key s value) s.num_values fl.zero buckets)
