-- ===== src/Tests/Tallies.antt =====
-- Instances of the theorems on sketches as tallies of keys.
use chalk_metrics.Prelude.{
  ℕ, ◌+◌, ◌%◌, ◌≡◌, refl, arith, List, [], ◌∷◌, ◌++◌, map, length, Returns, ◌>>=◌, subst,
}
use chalk_metrics.Prelude.Int.{pos, u64_add, u64_mod}
use chalk_metrics.Sketch.Key.{SketchHashKey, positive}
use chalk_metrics.Sketch.Links.Represents.{add_to}
use chalk_metrics.Sketch.Links.Tallied.{tallied, compact_key_times}
use chalk_metrics.Sketch.Udd.{new_sketch, empty_sketch, estimate_quantile, merge_sketch}
use chalk_metrics.Sketch.Udd.History.{AreKeys, folded, add_values, new_sketch-add_values}
use chalk_metrics.Sketch.Udd.Ranks.{
  IsRanked, rank_of, estimate_quantile-IsRanked, merge_sketch-tallied,
}
use chalk_metrics.Sketch.Udd.Shrink.{squared, widened}
use chalk_metrics.Sketch.Udd.Values.{IsSketch}
use chalk_metrics.Tests.Sketches.{one_bucket, one_value, one_value-IsSketch}
use chalk_metrics.Tests.Standins.{Word, word, whole, whole-IsFloat}

abbrev values : List Word
values = word 5 ∷ word 2 ∷ word 5 ∷ []

new_sketch-add_values_example : Returns (new_sketch 8 (word 0) >>= λ s. add_values 65 s values) λ r.
    (ks : List SketchHashKey) × (rounds : ℕ) × AreKeys (empty_sketch 8 (word 0)) rounds values ks
    × IsSketch r (tallied ks)
    × (r.num_values ≡ length ks % u64_mod)
    × (r.gamma ≡ squared rounds (empty_sketch 8 (word 0)).gamma)
    × (r.alpha ≡ widened rounds (word 0))
    × (r.values_sum ≡ folded whole.add whole.zero values)
    × (r.min ≡ folded whole.min whole.largest values)
    × (r.max ≡ folded whole.max whole.lowest values)
new_sketch-add_values_example =
    new_sketch-add_values whole-IsFloat 65 (omega arith) 8 (word 0) values (omega arith) refl

abbrev one_key : List SketchHashKey
one_key = positive (pos 5) ∷ []

tallied-one_key : one_bucket ≡ tallied one_key
unfolding add_to u64_add
tallied-one_key = refl

one_value-tallied : IsSketch (one_value 8) (tallied one_key)
one_value-tallied = subst (IsSketch (one_value 8)) tallied-one_key one_value-IsSketch

estimate_quantile-IsRanked_example :
    Returns
      (estimate_quantile (one_value 8) (word 1))
      (IsRanked (one_value 8) one_key (rank_of (one_value 8) (word 1)))
estimate_quantile-IsRanked_example =
    estimate_quantile-IsRanked (one_value 8) one_key one_value-tallied (omega arith) (word 1)
      (omega arith) refl

merge_sketch-tallied_example : Returns (merge_sketch 65 (one_value 8) (one_value 8)) λ r.
    (own : ℕ) × (others : ℕ) × IsSketch r
      (tallied (map (compact_key_times others) one_key ++ map (compact_key_times own) one_key))
    × ((one_value 8).compactions + own ≡ (one_value 8).compactions + others)
    × (r.gamma ≡ squared own (one_value 8).gamma)
    × (r.alpha ≡ widened own (one_value 8).alpha)
merge_sketch-tallied_example =
    merge_sketch-tallied 65 (one_value 8) one_key (one_value 8) one_key one_value-tallied
      one_value-tallied refl (omega arith) (omega arith) (omega arith) (omega arith) (omega arith)
      (omega arith) refl refl
