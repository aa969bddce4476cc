-- ===== src/Sketch/Udd/History.antt =====
-- src/aggregator/sketch.rs: a `UDDSketch` over all values that it was given: the tally of their
-- keys.
use mathlib.Core.List.{map-id}
use mathlib.Core.Path.{ap₂}
use Prim.Native.Nat.{zero as nat_zero}
use chalk_metrics.Float.{Float, IsFloat}
use chalk_metrics.Prelude.{
  ℕ, suc, ◌+◌, ◌-◌, ◌%◌, ◌≤◌, ◌≡◌, ◌⊎◌, ◌&&◌, refl, ap, sym, ◌∙◌, true, false, List, [], ◌∷◌, ◌++◌,
  map, append-nil, length, arith, inl, inr, Outcome, ok, ◌>>=◌, Returns, if◌then◌else◌, subst,
}
use chalk_metrics.Prelude.Int.{u64_add, u64_mod}
use chalk_metrics.Sketch.Key.{SketchHashKey}
use chalk_metrics.Sketch.Links.Represents.{Buckets, add_to}
use chalk_metrics.Sketch.Links.Tallied.{
  tallied, add_to_comm, zero_plus, suc_plus, compact_key_times, compact_key_times-add,
  map-compact_key_times, compacted_times-tallied,
}
use chalk_metrics.Sketch.Links.Totals.{total, total-add_to}
use chalk_metrics.Sketch.Udd.{UddSketch, new_sketch, empty_sketch, key, add_value}
use chalk_metrics.Sketch.Udd.Shrink.{squared, widened}
use chalk_metrics.Sketch.Udd.Values.{IsSketch, Adds, add_value-IsSketch, empty_sketch-IsSketch}

-- A key anywhere in the list can be counted last.
tallied_middle :
    (ks : List SketchHashKey) (k : SketchHashKey) (js : List SketchHashKey)
    → tallied (ks ++ (k ∷ js)) ≡ add_to k 1 (tallied (ks ++ js))
tallied_middle [] k js = refl
tallied_middle (i ∷ ks) k js =
    ap (add_to i 1) (tallied_middle ks k js) ∙ add_to_comm i 1 k 1 (tallied (ks ++ js))

pub total-tallied : (ks : List SketchHashKey) → total (tallied ks) ≡ length ks % u64_mod
unfolding u64_add
total-tallied [] = refl
total-tallied (k ∷ ks) = omega (arith, total-add_to k 1 (tallied ks), total-tallied ks)

module _ ⦃fl : Float⦄ where
  open fl use {F}

  pub squared-add : (n m : ℕ) (g : F) → squared m (squared n g) ≡ squared (n + m) g
  squared-add nat_zero m g = ap (λ x. squared x g) (zero_plus m)
  squared-add (suc n) m g = squared-add n m (fl.mul g g) ∙ ap (λ x. squared x g) (suc_plus n m)

  pub widened-add : (n m : ℕ) (a : F) → widened m (widened n a) ≡ widened (n + m) a
  widened-add nat_zero m a = ap (λ x. widened x a) (zero_plus m)
  widened-add (suc n) m a = widened-add n m _ ∙ ap (λ x. widened x a) (suc_plus n m)

  -- The key that the sketch gives a value behind some compactions.
  abbrev pub key_at : UddSketch F → ℕ → F → SketchHashKey
  key_at s c v = key (record s { gamma = squared c s.gamma }) v

  key_at-key :
      (s r : UddSketch F) (n c : ℕ) (v : F)
      → r.gamma ≡ squared n s.gamma
      → key_at r c v ≡ key_at s (n + c) v
  unfolding key
  key_at-key s r n c v g =
      let e : squared c r.gamma ≡ squared (n + c) s.gamma =
        ap (squared c) g ∙ squared-add n c s.gamma in
      rw e

  -- Behind `rounds` compactions in all, the keys of the values that are no NaN: each as it was when
  -- the value came, behind `c` of the compactions, compacted by the others.
  abbrev pub AreKeys : UddSketch F → ℕ → List F → List SketchHashKey → Type 0
  AreKeys s rounds [] ks = ks ≡ []
  AreKeys s rounds (v ∷ vs) ks =
      ((fl.is_nan v ≡ true) × AreKeys s rounds vs ks)
      ⊎ ((c : ℕ) × (rest : List SketchHashKey) × (fl.is_nan v ≡ false)
          × (c ≤ rounds)
          × (ks ≡ compact_key_times (rounds - c) (key_at s c v) ∷ rest)
          × AreKeys s rounds vs rest)

  -- The keys from a sketch that was compacted `n` times since.
  AreKeys-shift :
      (s r : UddSketch F) (n rounds : ℕ) (vs : List F) (ks : List SketchHashKey)
      → r.gamma ≡ squared n s.gamma
      → AreKeys r rounds vs ks
      → AreKeys s (n + rounds) vs ks
  AreKeys-shift s r n rounds [] ks g h = h
  AreKeys-shift s r n rounds (v ∷ vs) ks g (inl (nan, h)) =
      inl (nan, AreKeys-shift s r n rounds vs ks g h)
  AreKeys-shift s r n rounds (v ∷ vs) ks g (inr (c, rest, number, le, e, h)) =
      let d : n + rounds - (n + c) ≡ rounds - c = omega arith in
      inr (
        n + c,
        rest,
        number,
        omega (arith, le),
        e
            ∙ ap (λ k. compact_key_times (rounds - c) k ∷ rest) (key_at-key s r n c v g)
            ∙ ap (λ x. compact_key_times x (key_at s (n + c) v) ∷ rest) (sym d),
        AreKeys-shift s r n rounds vs rest g h,
      )

  -- A field that takes each value in turn, but no NaN.
  abbrev pub folded : (F → F → F) → F → List F → F
  folded f a [] = a
  folded f a (v ∷ vs) = folded f (if fl.is_nan v then a else f a v) vs

  folded_number :
      (f : F → F → F) (a v : F) (vs : List F)
      → fl.is_nan v ≡ false
      → folded f (f a v) vs ≡ folded f a (v ∷ vs)
  folded_number f a v vs h = rw h refl

  folded_nan :
      (f : F → F → F) (a v : F) (vs : List F)
      → fl.is_nan v ≡ true
      → folded f a vs ≡ folded f a (v ∷ vs)
  folded_nan f a v vs h = rw h refl

  -- `add_value` with each value in turn.
  abbrev pub add_values : ℕ → UddSketch F → List F → Outcome (UddSketch F)
  add_values fuel s [] = ok s
  add_values fuel s (v ∷ vs) = add_value fuel s v >>= λ r. add_values fuel r vs

  -- The sketch behind the values: the tally of their keys and the old ones, compacted alike.
  pub record Holds (s : UddSketch F) (old : List SketchHashKey) (vs : List F) (r : UddSketch F)
      : Type 0 where
    pub rounds : ℕ
    pub keys : List SketchHashKey
    pub are_keys : AreKeys s rounds vs keys
    pub sketch : IsSketch r (tallied (keys ++ map (compact_key_times rounds) old))
    pub gamma : r.gamma ≡ squared rounds s.gamma
    pub alpha : r.alpha ≡ widened rounds s.alpha
    pub max_buckets : r.max_buckets ≡ s.max_buckets
    pub values_sum : r.values_sum ≡ folded fl.add s.values_sum vs
    pub min : r.min ≡ folded fl.min s.min vs
    pub max : r.max ≡ folded fl.max s.max vs

  Holds-cons :
      (s : UddSketch F) (old : List SketchHashKey) (v : F) (vs : List F) (t r : UddSketch F)
      (l' : Buckets)
      → fl.is_nan v ≡ false
      → (a : Adds s (tallied old) v t l')
      → Holds t (map (compact_key_times a.rounds) (key s v ∷ old)) vs r
      → Holds s old (v ∷ vs) r
  Holds-cons s old v vs t r l' number a h =
      let n = a.rounds in
      let m = h.rounds in
      let k = compact_key_times (n + m) (key s v) in
      let whole : n + m ≡ n + m - 0 = omega arith in
      record {
        rounds = n + m;
        keys = k ∷ h.keys;
        are_keys = inr (
          0,
          h.keys,
          number,
          omega arith,
          ap (λ x. compact_key_times x (key s v) ∷ h.keys) whole,
          AreKeys-shift s t n m vs h.keys a.gamma h.are_keys,
        );
        sketch =
            subst (IsSketch r)
              (tallied_middle h.keys (compact_key_times m (compact_key_times n (key s v)))
                  (map (compact_key_times m) (map (compact_key_times n) old))
                ∙ ap₂ (λ x js. add_to x 1 (tallied (h.keys ++ js)))
                    (compact_key_times-add n m (key s v)) (map-compact_key_times n m old))
              h.sketch;
        gamma = h.gamma ∙ ap (squared m) a.gamma ∙ squared-add n m s.gamma;
        alpha = h.alpha ∙ ap (widened m) a.alpha ∙ widened-add n m s.alpha;
        max_buckets = h.max_buckets ∙ a.max_buckets;
        values_sum =
            h.values_sum
            ∙ ap (λ x. folded fl.add x vs) a.values_sum
            ∙ folded_number fl.add s.values_sum v vs number;
        min = h.min ∙ ap (λ x. folded fl.min x vs) a.min ∙ folded_number fl.min s.min v vs number;
        max = h.max ∙ ap (λ x. folded fl.max x vs) a.max ∙ folded_number fl.max s.max v vs number;
      }

  Holds-nan :
      (s : UddSketch F) (old : List SketchHashKey) (v : F) (vs : List F) (r : UddSketch F)
      → fl.is_nan v ≡ true
      → Holds s old vs r
      → Holds s old (v ∷ vs) r
  Holds-nan s old v vs r nan h = record {
    rounds = h.rounds;
    keys = h.keys;
    are_keys = inl (nan, h.are_keys);
    sketch = h.sketch;
    gamma = h.gamma;
    alpha = h.alpha;
    max_buckets = h.max_buckets;
    values_sum = h.values_sum ∙ folded_nan fl.add s.values_sum v vs nan;
    min = h.min ∙ folded_nan fl.min s.min v vs nan;
    max = h.max ∙ folded_nan fl.max s.max v vs nan;
  }

  module _ (law : IsFloat fl) (fuel : ℕ) (f : 65 ≤ fuel) where
    -- From any sketch that holds the tally of some keys.
    pub add_values-Holds :
        (s : UddSketch F) (old : List SketchHashKey) (vs : List F)
        → 7 ≤ s.max_buckets
        → IsSketch s (tallied old)
        → Returns (add_values fuel s vs) (Holds s old vs)
    add_values-Holds s old [] room inv = (
      s,
      refl,
      record {
        rounds = 0;
        keys = [];
        are_keys = refl;
        sketch = subst (λ ks. IsSketch s (tallied ks)) (sym (map-id old)) inv;
        gamma = refl;
        alpha = refl;
        max_buckets = refl;
        values_sum = refl;
        min = refl;
        max = refl;
      },
    )
    add_values-Holds s old (v ∷ vs) room inv =
        elim (add_value-IsSketch law fuel s (tallied old) v f room inv) [
          | inl (nan, run) ↦
              let (r, run', h) = add_values-Holds s old vs room inv in
              (r, rw run run', Holds-nan s old v vs r nan h)
          | inr (number, (t, run, (l', a))) ↦
              let again : IsSketch t (tallied (map (compact_key_times a.rounds) (key s v ∷ old))) =
                subst (IsSketch t) (a.buckets ∙ compacted_times-tallied a.rounds (key s v ∷ old))
                  a.sketch in
              let (r, run', h) =
                add_values-Holds t (map (compact_key_times a.rounds) (key s v ∷ old)) vs
                  (rw a.max_buckets room) again in
              (r, rw run run', Holds-cons s old v vs t r l' number a h)
        ]

    -- With a lawful float, 65 rounds of fuel, room for seven buckets and an error bound in range: a
    -- new sketch that is given any values in turn returns, whatever they are. It is in order over
    -- the tally of their keys, one for each value that is no NaN: the key that the value got when
    -- it came, behind some of the compactions, compacted by those that followed. The number of
    -- values is that of the keys, with wrap-around, `gamma` and `alpha` have been changed once for
    -- each compaction, and the sum, the least and the largest are taken over the values in turn.
    pub new_sketch-add_values :
        (max_buckets : ℕ) (initial_error : F) (vs : List F)
        → 7 ≤ max_buckets
        → (fl.le fl.smallest_error initial_error && fl.lt initial_error fl.one) ≡ true
        → Returns (new_sketch max_buckets initial_error >>= λ s. add_values fuel s vs) λ r.
          (ks : List SketchHashKey) × (rounds : ℕ) × AreKeys
            (empty_sketch max_buckets initial_error)
            rounds
            vs
            ks
          × IsSketch r (tallied ks)
          × (r.num_values ≡ length ks % u64_mod)
          × (r.gamma ≡ squared rounds (empty_sketch max_buckets initial_error).gamma)
          × (r.alpha ≡ widened rounds initial_error)
          × (r.values_sum ≡ folded fl.add fl.zero vs)
          × (r.min ≡ folded fl.min fl.largest vs)
          × (r.max ≡ folded fl.max fl.lowest vs)
    unfolding new_sketch
    new_sketch-add_values max_buckets initial_error vs room range =
        let s = empty_sketch max_buckets initial_error in
        let (r, run, h) =
          add_values-Holds s [] vs room (empty_sketch-IsSketch max_buckets initial_error) in
        (
          r,
          rw range run,
          (
            h.keys,
            h.rounds,
            h.are_keys,
            subst (λ ks. IsSketch r (tallied ks)) (append-nil h.keys) h.sketch,
            sym h.sketch.counted
                ∙ ap (λ ks. total (tallied ks)) (append-nil h.keys)
                ∙ total-tallied h.keys,
            h.gamma,
            h.alpha,
            h.values_sum,
            h.min,
            h.max,
          ),
        )
