-- ===== src/Tests/Keys.antt =====
-- Instances of the theorems on keys.
use chalk_metrics.Prelude.{◌≡◌, refl, ◌⊎◌, arith}
use chalk_metrics.Prelude.Int.{pos}
use chalk_metrics.Sketch.Key.{positive, partial_cmp, compact_key, Lt}
use chalk_metrics.Sketch.Key.Compact.{compact_key_mono, compact_key_apart}

compact_key_mono_example :
    Lt (compact_key (positive (pos 3))) (compact_key (positive (pos 4)))
    ⊎ (compact_key (positive (pos 3)) ≡ compact_key (positive (pos 4)))
compact_key_mono_example =
    compact_key_mono (positive (pos 3)) (positive (pos 4)) (omega arith, omega arith)
      (omega arith, omega arith) (unfold partial_cmp in refl)

compact_key_apart_example : Lt (compact_key (positive (pos 3))) (compact_key (positive (pos 5)))
compact_key_apart_example =
    compact_key_apart (positive (pos 3)) (positive (pos 4)) (positive (pos 5))
      (omega arith, omega arith) (omega arith, omega arith) (omega arith, omega arith)
      (unfold partial_cmp in refl) (unfold partial_cmp in refl)
