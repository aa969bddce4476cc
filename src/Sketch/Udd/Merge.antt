-- ===== src/Sketch/Udd/Merge.antt =====
-- src/aggregator/sketch.rs: `UDDSketch::merge_sketch`.
use Prim.Native.Nat.{zero as nat_zero}
use mathlib.Core.Path.{ap₂}
use chalk_metrics.Float.{Float}
use chalk_metrics.Prelude.{
  ℕ, suc, ◌+◌, ◌^◌, ◌≤◌, ◌<◌, ◌≡◌, refl, ap, sym, ◌∙◌, ◌⊎◌, true, false, [], ◌∷◌, length, arith,
  inl, inr, Bool-cases, ltb, ltb→lt, Returns, ◌==◌, nat_eq, nat_beq_iff,
}
use chalk_metrics.Prelude.Int.{u64_add, u64_add_comm, u64_add_assoc}
use chalk_metrics.Sketch.Links.{SketchHashMap}
use chalk_metrics.Sketch.Links.Compacted.{lt-invalid}
use chalk_metrics.Sketch.Links.Counts.{add_count-Represents}
use chalk_metrics.Sketch.Links.Iteration.{iter-Represents}
use chalk_metrics.Sketch.Links.Represents.{Buckets, IsSorted, add_to, compacted, Represents}
use chalk_metrics.Sketch.Links.Settling.{compacted_times}
use chalk_metrics.Sketch.Links.Tallied.{add_list}
use chalk_metrics.Sketch.Links.Totals.{total, total-add_to}
use chalk_metrics.Sketch.Udd.{UddSketch, catch_up, add_all, merge_sketch}
use chalk_metrics.Sketch.Udd.Shrink.{
  SameTallies, SameTallies-refl, SameTallies-trans, Compacts, shrink_total, total-compacted_times,
  compact_buckets_lem, Compacts-suc, squared, widened,
}
use chalk_metrics.Sketch.Udd.Values.{IsSketch}

total_wrapped : (l : Buckets) → total l ≡ u64_add 0 (total l)
unfolding u64_add
total_wrapped [] = refl
total_wrapped ((k, c) ∷ l) = omega arith

total-add_list : (o l : Buckets) → total (add_list o l) ≡ u64_add (total o) (total l)
total-add_list [] l = total_wrapped l
total-add_list ((k, c) ∷ o) l =
    total-add_list o (add_to k c l)
    ∙ ap (u64_add (total o)) (total-add_to k c l)
    ∙ sym (u64_add_assoc (total o) c (total l))
    ∙ ap (λ n. u64_add n (total l)) (u64_add_comm (total o) c)

add_all-Represents :
    (o l : Buckets) (m : SketchHashMap)
    → IsSorted o
    → Represents m l
    → Returns (add_all m o) λ r. Represents r (add_list o l)
unfolding add_all
add_all-Represents [] l m s rep = (m, refl, rep)
add_all-Represents ((k, c) ∷ o) l m s rep =
    let (r, run, rep') = add_count-Represents m l k c rep s.0 (lt-invalid k c o s) in
    let (t, run', rep'') = add_all-Represents o (add_to k c l) r s.2 rep' in (t, rw run run', rep'')

bounds :
    {a b c f : ℕ}
    → (c ≡ a) ⊎ (c ≡ b)
    → a < 2 ^ 32
    → b < 2 ^ 32
    → a < f
    → b < f
    → (c < 2 ^ 32) × (c < f)
bounds e p q r s = (omega arith, omega arith)

-- Both sketches end at the same number of compactions.
same_level :
    (a b x y o' s' : ℕ)
    → a ≤ o'
    → o' ≡ b + x
    → o' ≤ s'
    → s' ≡ a + y
    → (s' ≡ o') ⊎ (s' ≡ a)
    → a + y ≡ b + x
same_level a b x y o' s' p q r s (inl e) = omega arith
same_level a b x y o' s' p q r s (inr e) = omega arith

with_buckets :
    {F : Type 0} (s r : UddSketch F) (b : SketchHashMap)
    → SameTallies s r
    → SameTallies s (record r { buckets = b })
with_buckets s r b t = record {
  max_buckets = t.max_buckets;
  num_values = t.num_values;
  values_sum = t.values_sum;
  min = t.min;
  max = t.max;
  zero_count = t.zero_count;
}

module _ ⦃fl : Float⦄ where
  open fl use {F}

  -- A sketch that was compacted some times over, to `target` compactions at least.
  pub record Catches (s : UddSketch F) (l : Buckets) (target : ℕ) (r : UddSketch F) : Type 0 where
    pub rounds : ℕ
    pub compacts : Compacts s l rounds r
    pub reached : target ≤ r.compactions
    pub level : r.compactions ≡ s.compactions + rounds
    pub exact : (r.compactions ≡ target) ⊎ (r.compactions ≡ s.compactions)

  catch_up-Catches :
      (fuel : ℕ) (s : UddSketch F) (l : Buckets) (target : ℕ)
      → 0 < fuel
      → target < s.compactions + fuel
      → target < 2 ^ 32
      → Represents s.buckets l
      → Returns (catch_up fuel s target) (Catches s l target)
  unfolding catch_up
  catch_up-Catches nat_zero s l target pos f small rep = absurd (omega arith)
  catch_up-Catches (suc fuel) s l target pos f small rep =
      elim (Bool-cases (ltb s.compactions target)) [
        | inr done ↦ (
          s,
          rw (done, catch_up),
          record {
            rounds = 0;
            compacts = record {
              represents = rep;
              same = SameTallies-refl s;
              gamma = refl;
              alpha = refl;
            };
            reached = ground arith;
            level = omega arith;
            exact = inr refl;
          },
        )
        | inl more ↦
            let under : s.compactions < target = ltb→lt _ _ more in
            let (r, run, (c, next)) = compact_buckets_lem s l rep in
            let one : r.compactions ≡ s.compactions + 1 = omega (arith, next) in
            let (t, run', d) =
              catch_up-Catches fuel r (compacted l) target (omega arith) (omega (arith, one)) small
                c.represents in
            (
              t,
              rw (more, catch_up) (rw run run'),
              record {
                rounds = suc d.rounds;
                compacts = Compacts-suc s l d.rounds r t c d.compacts;
                reached = d.reached;
                level = omega (arith, one, d.level);
                exact = exact_next one under d.reached d.exact;
              },
            )
      ]
    where
      exact_next :
          {a b c : ℕ}
          → b ≡ a + 1
          → a < target
          → target ≤ c
          → (c ≡ target) ⊎ (c ≡ b)
          → (c ≡ target) ⊎ (c ≡ a)
      exact_next e u v (inl x) = inl x
      exact_next e u v (inr x) = inl (omega arith)

  -- Both lists of buckets compacted some times, joined, and compacted again; the other fields as
  -- the code joins them.
  pub record Merges (s : UddSketch F) (l : Buckets) (o : UddSketch F) (lo : Buckets)
      (r : UddSketch F) : Type 0 where
    pub result : Buckets
    pub sketch : IsSketch r result
    pub own : ℕ
    pub others : ℕ
    pub rounds : ℕ
    pub buckets :
        result
        ≡ compacted_times rounds (add_list (compacted_times others lo) (compacted_times own l))
    pub level : s.compactions + own ≡ o.compactions + others
    pub gamma : r.gamma ≡ squared rounds (squared own s.gamma)
    pub alpha : r.alpha ≡ widened rounds (widened own s.alpha)
    pub max_buckets : r.max_buckets ≡ s.max_buckets
    pub num_values : r.num_values ≡ u64_add s.num_values o.num_values
    pub values_sum : r.values_sum ≡ fl.add s.values_sum o.values_sum
    pub min : r.min ≡ fl.min s.min o.min
    pub max : r.max ≡ fl.max s.max o.max
    pub zero_count : r.zero_count ≡ u64_add s.zero_count o.zero_count

  abbrev joined : UddSketch F → UddSketch F → UddSketch F
  joined r o = record r {
    num_values = u64_add r.num_values o.num_values;
    values_sum = fl.add r.values_sum o.values_sum;
    min = fl.min r.min o.min;
    max = fl.max r.max o.max;
    zero_count = u64_add r.zero_count o.zero_count;
  }

  joined-Merges :
      (s : UddSketch F) (l : Buckets) (o : UddSketch F) (lo : Buckets) (a b m : ℕ)
      (o' r : UddSketch F)
      → IsSketch s l
      → IsSketch o lo
      → SameTallies o o'
      → SameTallies s r
      → Represents r.buckets
          (compacted_times m (add_list (compacted_times a lo) (compacted_times b l)))
      → length (compacted_times m (add_list (compacted_times a lo) (compacted_times b l)))
        ≤ s.max_buckets
      → s.compactions + b ≡ o.compactions + a
      → r.gamma ≡ squared m (squared b s.gamma)
      → r.alpha ≡ widened m (widened b s.alpha)
      → Merges s l o lo (joined r o')
  joined-Merges s l o lo a b m o' r inv ino to tr rep few lv g al =
      let whole = add_list (compacted_times a lo) (compacted_times b l) in
      record {
        result = compacted_times m whole;
        sketch = record {
          represents = rep;
          counted =
              total-compacted_times m whole
              ∙ total-add_list (compacted_times a lo) (compacted_times b l)
              ∙ ap₂ u64_add (total-compacted_times a lo ∙ ino.counted ∙ sym to.num_values)
                  (total-compacted_times b l ∙ inv.counted ∙ sym tr.num_values)
              ∙ u64_add_comm o'.num_values r.num_values;
          few = rw tr.max_buckets few;
        };
        own = b;
        others = a;
        rounds = m;
        buckets = refl;
        level = lv;
        gamma = g;
        alpha = al;
        max_buckets = tr.max_buckets;
        num_values = ap₂ u64_add tr.num_values to.num_values;
        values_sum = ap₂ fl.add tr.values_sum to.values_sum;
        min = ap₂ fl.min tr.min to.min;
        max = ap₂ fl.max tr.max to.max;
        zero_count = ap₂ u64_add tr.zero_count to.zero_count;
      }

  module _ (fuel : ℕ) (s : UddSketch F) (l : Buckets) (o : UddSketch F) (lo : Buckets)
      (inv : IsSketch s l) (ino : IsSketch o lo) (alike : s.max_buckets ≡ o.max_buckets) where
    -- Let two sketches be in order, each with a value at least, with the same room of seven
    -- buckets at least, compacted fewer times than the fuel and than 2 ^ 32, and let 65 rounds of
    -- fuel be given. Then the merge returns, without a panic: the buckets of both, compacted some
    -- times each until both have had as many compactions, are joined and compacted again, `gamma` and `alpha` of the first have been changed
    -- as often, the result is in order, so that no count is lost, and the other fields are joined as
    -- the code joins them.
    pub merge_sketch-Merges :
        65 ≤ fuel
        → 7 ≤ s.max_buckets
        → s.compactions < fuel
        → o.compactions < fuel
        → s.compactions < 2 ^ 32
        → o.compactions < 2 ^ 32
        → (s.num_values == 0) ≡ false
        → (o.num_values == 0) ≡ false
        → Returns (merge_sketch fuel s o) (Merges s l o lo)
    unfolding merge_sketch
    merge_sketch-Merges f room fs fo cs co own_values other_values =
        let same : (s.max_buckets == o.max_buckets) ≡ true = (nat_beq_iff _ _).1 alike in
        let (o', run_o, c) =
          catch_up-Catches fuel o lo s.compactions (omega arith) (omega arith) cs ino.represents in
        let bound : (o'.compactions < 2 ^ 32) × (o'.compactions < fuel) =
          bounds c.exact cs co fs fo in
        let (s', run_s, d) =
          catch_up-Catches fuel s l o'.compactions (omega arith) (omega arith) bound.0
            inv.represents in
        let lo' = compacted_times c.rounds lo in
        let l' = compacted_times d.rounds l in
        let values = iter-Represents o'.buckets lo' c.compacts.represents in
        let (b, run_b, rep) =
          add_all-Represents lo' l' s'.buckets c.compacts.represents.sorted d.compacts.represents in
        let t : UddSketch F = record s' { buckets = b } in
        let (r, run_r, (m, e, few)) =
          shrink_total fuel t (add_list lo' l') f (rw d.compacts.same.max_buckets room) rep in
        (
          joined r o',
          rw same (
              rw other_values
                (rw own_values (rw run_o (rw run_s (rw values (rw run_b (rw run_r))))))),
          joined-Merges s l o lo c.rounds d.rounds m o' r inv ino c.compacts.same
              (SameTallies-trans s t r (with_buckets s s' b d.compacts.same) e.same) e.represents
              (rw d.compacts.same.max_buckets at few)
              (same_level _ _ _ _ _ _ c.reached c.level d.reached d.level d.exact)
              (e.gamma ∙ ap (squared m) d.compacts.gamma)
              (e.alpha ∙ ap (widened m) d.compacts.alpha),
        )
