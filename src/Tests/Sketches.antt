-- ===== src/Tests/Sketches.antt =====
-- Instances of the theorems on links and sketches, at a sketch of one value.
use chalk_metrics.Prelude.{
  ℕ, ◌≤◌, ◌≡◌, refl, ◌⊎◌, arith, [], ◌∷◌, length, true, false, ok, out_of_fuel, Returns, nat_eq,
}
use chalk_metrics.Prelude.HashMap.{get}
use chalk_metrics.Prelude.Int.{pos, u64_add}
use chalk_metrics.Sketch.Key.{negative, positive, invalid, partial_cmp}
use chalk_metrics.Sketch.Links.{SketchHashMap, add_count, compact}
use chalk_metrics.Sketch.Links.Compaction.{compact-Represents}
use chalk_metrics.Sketch.Links.Counts.{add_count-Represents}
use chalk_metrics.Sketch.Links.Represents.{Buckets, add_to, compacted, has, Represents}
use chalk_metrics.Sketch.Links.Settling.{compacted_times, length-settled-le}
use chalk_metrics.Sketch.Udd.{UddSketch, add_value, merge_sketch}
use chalk_metrics.Sketch.Udd.Merge.{Merges, merge_sketch-Merges}
use chalk_metrics.Sketch.Udd.Values.{IsSketch, Adds, add_value-IsSketch, add_value_never}
use chalk_metrics.Tests.Standins.{Word, word, whole, whole-IsFloat}

abbrev pub one_bucket : Buckets
one_bucket = (positive (pos 5), 1) ∷ []

abbrev pub one_link : SketchHashMap
one_link = record {
  map = (positive (pos 5), record { count = 1; next = invalid }) ∷ [];
  head = positive (pos 5);
}

pub one_link-Represents : Represents one_link one_bucket
unfolding get has partial_cmp
one_link-Represents = record {
  head = refl;
  linked = (refl, tt);
  sorted = ((omega arith, omega arith), refl, tt);
  counted = refl;
  only = λ k h. ground arith;
}

add_count-Represents_example :
    Returns
      (add_count one_link (negative (pos 2)) 3)
      (λ r. Represents r (add_to (negative (pos 2)) 3 one_bucket))
add_count-Represents_example =
    add_count-Represents one_link one_bucket (negative (pos 2)) 3 one_link-Represents
      (omega arith, omega arith) (unfold partial_cmp in refl)

compact-Represents_example : Returns (compact one_link) (λ r. Represents r (compacted one_bucket))
compact-Represents_example = compact-Represents one_link one_bucket one_link-Represents

length-settled-le_example : length (compacted_times 64 one_bucket) ≤ 7
length-settled-le_example = length-settled-le one_bucket one_link-Represents.sorted

-- The sketch of the value 5, with room for a number of buckets.
abbrev pub one_value : ℕ → UddSketch Word
one_value room = record {
  buckets = one_link;
  alpha = word 0;
  gamma = word 1;
  compactions = 0;
  max_buckets = room;
  num_values = 1;
  values_sum = word 5;
  min = word 5;
  max = word 5;
  zero_count = 0;
}

pub one_value-IsSketch : IsSketch (one_value 8) one_bucket
unfolding u64_add
one_value-IsSketch = record { represents = one_link-Represents; counted = refl; few = omega arith }

add_value-IsSketch_example :
    ((whole.is_nan (word 9) ≡ true) × (add_value 65 (one_value 8) (word 9) ≡ ok (one_value 8)))
    ⊎ ((whole.is_nan (word 9) ≡ false)
        × Returns
            (add_value 65 (one_value 8) (word 9))
            λ r. (l' : Buckets) × Adds (one_value 8) one_bucket (word 9) r l')
add_value-IsSketch_example =
    add_value-IsSketch whole-IsFloat 65 (one_value 8) one_bucket (word 9) (omega arith)
      (omega arith) one_value-IsSketch

add_value_never_example : add_value 1000 (one_value 0) (word 9) ≡ out_of_fuel
add_value_never_example =
    add_value_never whole-IsFloat 1000 (one_value 0) one_bucket (word 9) refl refl
      one_link-Represents

merge_sketch-Merges_example :
    Returns
      (merge_sketch 65 (one_value 8) (one_value 8))
      (Merges (one_value 8) one_bucket (one_value 8) one_bucket)
merge_sketch-Merges_example =
    merge_sketch-Merges 65 (one_value 8) one_bucket (one_value 8) one_bucket one_value-IsSketch
      one_value-IsSketch refl (omega arith) (omega arith) (omega arith) (omega arith) (omega arith)
      (omega arith) refl refl
