-- ===== src/Sketch/Udd/Values.antt =====
-- src/aggregator/sketch.rs, `UDDSketch::add_value`: the invariant of a sketch, and what one more value does to it.
use Prim.Native.Nat.{zero as nat_zero}
use chalk_metrics.Float.{Float, IsFloat}
use chalk_metrics.Prelude.{
  ℕ, suc, ◌≤◌, ◌<◌, ◌≡◌, ◌⊎◌, ◌&&◌, refl, ap, sym, ◌∙◌, true, false, [], ◌∷◌, length, arith, inl,
  inr, Bool-cases, ltb, ok, out_of_fuel, Returns, if◌then◌else◌,
}
use chalk_metrics.Prelude.Int.{u64_add, u64_add_comm}
use chalk_metrics.Sketch.Key.{SketchHashKey, invalid, IsInRange, Lt, partial_cmp}
use chalk_metrics.Sketch.Links.{increment, len}
use chalk_metrics.Sketch.Links.Counts.{add_count-Represents}
use chalk_metrics.Sketch.Links.Iteration.{new-Represents, len-Represents}
use chalk_metrics.Sketch.Links.Represents.{Buckets, add_to, compacted, Represents}
use chalk_metrics.Sketch.Links.Settling.{compacted_times}
use chalk_metrics.Sketch.Links.Totals.{total, total-add_to}
use chalk_metrics.Sketch.Udd.{UddSketch, new_sketch, empty_sketch, key, shrink, tally, add_value}
use chalk_metrics.Sketch.Udd.Shrink.{
  SameTallies, Compacts, squared, widened, shrink_total, total-compacted_times, compact_buckets_lem,
}

-- The links are in order, the counts add up to the number of values, and the buckets are few.
pub record IsSketch {F : Type 0} (s : UddSketch F) (l : Buckets) : Type 0 where
  pub represents : Represents s.buckets l
  pub counted : total l ≡ s.num_values
  pub few : length l ≤ s.max_buckets

add_to_nonempty : (k : SketchHashKey) (n : ℕ) (l : Buckets) → 0 < length (add_to k n l)
unfolding add_to
add_to_nonempty k n [] = omega arith
add_to_nonempty k n ((j, c) ∷ l) = ground arith

module _ ⦃fl : Float⦄ where
  open fl use {F}

  pub key-IsInRange : IsFloat fl → (s : UddSketch F) (v : F) → IsInRange (key s v)
  unfolding key
  key-IsInRange law s v =
      let r = law.to_i64_range (fl.ceil (fl.log (fl.abs v) s.gamma)) in ground arith

  pub key-lt-invalid : (s : UddSketch F) (v : F) → Lt (key s v) invalid
  unfolding key partial_cmp
  key-lt-invalid s v = ground arith

  increment-Represents :
      IsFloat fl
      → (s : UddSketch F) (v : F) (l : Buckets) → Represents s.buckets l
      → Returns (increment s.buckets (key s v)) λ b. Represents b (add_to (key s v) 1 l)
  unfolding increment
  increment-Represents law s v l rep =
      add_count-Represents s.buckets l (key s v) 1 rep (key-IsInRange law s v) (key-lt-invalid s v)

  -- One more value: the old buckets with one more count at the value's key, compacted some times
  -- over, and the other fields as the code sets them.
  pub record Adds (s : UddSketch F) (l : Buckets) (v : F) (r : UddSketch F) (l' : Buckets)
      : Type 0 where
    pub sketch : IsSketch r l'
    pub rounds : ℕ
    pub buckets : l' ≡ compacted_times rounds (add_to (key s v) 1 l)
    pub gamma : r.gamma ≡ squared rounds s.gamma
    pub alpha : r.alpha ≡ widened rounds s.alpha
    pub max_buckets : r.max_buckets ≡ s.max_buckets
    pub num_values : r.num_values ≡ u64_add s.num_values 1
    pub values_sum : r.values_sum ≡ fl.add s.values_sum v
    pub min : r.min ≡ fl.min s.min v
    pub max : r.max ≡ fl.max s.max v
    pub zero_count :
        r.zero_count ≡ (if fl.eq v fl.zero then u64_add s.zero_count 1 else s.zero_count)

  tally-Adds :
      (s : UddSketch F) (l : Buckets) (v : F) (r : UddSketch F)
      → IsSketch s l
      → (t : UddSketch F) → SameTallies s t
      → t.gamma ≡ s.gamma
      → t.alpha ≡ s.alpha
      → ((m : ℕ) × Compacts t (add_to (key s v) 1 l) m r
          × (length (compacted_times m (add_to (key s v) 1 l)) ≤ t.max_buckets))
      → (l' : Buckets) × Adds s l v (tally r v) l'
  unfolding tally
  tally-Adds s l v r inv t st g a (m, c, few) = (
    compacted_times m (add_to (key s v) 1 l),
    record {
      sketch = record {
        represents = c.represents;
        counted =
            total-compacted_times m (add_to (key s v) 1 l)
            ∙ total-add_to (key s v) 1 l
            ∙ u64_add_comm 1 (total l)
            ∙ ap (λ n. u64_add n 1) (inv.counted ∙ sym (c.same.num_values ∙ st.num_values));
        few = omega arith;
      };
      rounds = m;
      buckets = refl;
      gamma = c.gamma ∙ ap (squared m) g;
      alpha = c.alpha ∙ ap (widened m) a;
      max_buckets = c.same.max_buckets ∙ st.max_buckets;
      num_values = ap (λ n. u64_add n 1) (c.same.num_values ∙ st.num_values);
      values_sum = ap (λ n. fl.add n v) (c.same.values_sum ∙ st.values_sum);
      min = ap (λ n. fl.min n v) (c.same.min ∙ st.min);
      max = ap (λ n. fl.max n v) (c.same.max ∙ st.max);
      zero_count =
          ap (λ n. if fl.eq v fl.zero then u64_add n 1 else n) (c.same.zero_count ∙ st.zero_count);
    },
  )

  -- Let a sketch be in order over a list of buckets, with room for seven buckets at least, and let
  -- 65 rounds of fuel be given. Adding a NaN changes nothing. Adding any other value returns, and
  -- counts it once at its key: the new sketch is in order over the old buckets with that count,
  -- compacted some times over, `gamma` and `alpha` have been changed as often, and the other fields
  -- are set from the value as the code sets them.
  pub add_value-IsSketch :
      IsFloat fl
      → (fuel : ℕ) (s : UddSketch F) (l : Buckets) (v : F) → 65 ≤ fuel
      → 7 ≤ s.max_buckets
      → IsSketch s l
      → ((fl.is_nan v ≡ true) × (add_value fuel s v ≡ ok s))
        ⊎ ((fl.is_nan v ≡ false)
            × Returns (add_value fuel s v) λ r. (l' : Buckets) × Adds s l v r l')
  unfolding add_value
  add_value-IsSketch law fuel s l v f room inv = elim (Bool-cases (fl.is_nan v)) [
    | inl nan ↦ inl (nan, rw nan)
    | inr number ↦
        let (b, run, rep) = increment-Represents law s v l inv.represents in
        let t : UddSketch F = record s { buckets = b } in
        let (r, run', few) = shrink_total fuel t (add_to (key s v) 1 l) f room rep in
        inr (
          number,
          (
            tally r v,
            rw number (rw run (rw run')),
            tally-Adds s l v r inv t
                (record {
                  max_buckets = refl;
                  num_values = refl;
                  values_sum = refl;
                  min = refl;
                  max = refl;
                  zero_count = refl;
                })
                refl refl few,
          ),
        )
  ]

  -- The buckets of a map that represents a list with one bucket at least.
  compacted_nonempty : (l : Buckets) → 0 < length l → 0 < length (compacted l)
  compacted_nonempty [] h = absurd (omega arith)
  compacted_nonempty ((k, c) ∷ l) h = unfold compacted in add_to_nonempty _ c (compacted l)

  shrink_never :
      (fuel : ℕ) (s : UddSketch F) (l : Buckets)
      → s.max_buckets ≡ 0
      → Represents s.buckets l
      → 0 < length l
      → shrink fuel s ≡ out_of_fuel
  unfolding shrink
  shrink_never nat_zero s l none rep some = refl
  shrink_never (suc fuel) s l none rep some =
      let e : ltb s.max_buckets (len s.buckets) ≡ true =
        ground (arith, len-Represents s.buckets l rep) in
      let (r, run, (c, _)) = compact_buckets_lem s l rep in
      rw (e, shrink)
        (rw run (
          shrink_never fuel r (compacted l) (c.same.max_buckets ∙ none) c.represents
            (compacted_nonempty l some)))

  -- With no room for a bucket, adding a value that is not a NaN to a sketch whose map is in order
  -- runs out of any fuel: the loop of compactions never ends.
  pub add_value_never :
      IsFloat fl
      → (fuel : ℕ) (s : UddSketch F) (l : Buckets) (v : F) → s.max_buckets ≡ 0
      → fl.is_nan v ≡ false
      → Represents s.buckets l
      → add_value fuel s v ≡ out_of_fuel
  unfolding add_value
  add_value_never law fuel s l v none number rep =
      let (b, run, rep') = increment-Represents law s v l rep in
      rw number (
        rw run (
          rw (
            shrink_never fuel (record s { buckets = b }) (add_to (key s v) 1 l) none rep'
              (add_to_nonempty (key s v) 1 l))))

  pub empty_sketch-IsSketch :
      (max_buckets : ℕ) (initial_error : F) → IsSketch (empty_sketch max_buckets initial_error) []
  empty_sketch-IsSketch max_buckets initial_error = record {
    represents = new-Represents;
    counted = refl;
    few = omega arith;
  }

  -- With an error bound in range, the constructor returns an empty sketch in order with the room
  -- that was asked for.
  pub new_sketch-IsSketch :
      (max_buckets : ℕ) (initial_error : F)
      → (fl.le fl.smallest_error initial_error && fl.lt initial_error fl.one) ≡ true
      → Returns
          (new_sketch max_buckets initial_error)
          λ s. IsSketch s [] × (s.num_values ≡ 0) × (s.max_buckets ≡ max_buckets)
  unfolding new_sketch
  new_sketch-IsSketch max_buckets initial_error h = (
    empty_sketch max_buckets initial_error,
    rw h,
    (empty_sketch-IsSketch max_buckets initial_error, refl, refl),
  )
