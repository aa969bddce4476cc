-- ===== src/Tests/Slots.antt =====
-- Instances of the theorems on slots.
use chalk_metrics.Prelude.{◌≡◌, arith, List, [], ◌∷◌, map, nat_eq, ◌-◌, ◌^◌}
use chalk_metrics.Prelude.Int.{ℤ, pos, negsuc, i64_add, ◌+ℤ◌}
use chalk_metrics.Slots.Count.{CountCall, new_count, flush_count, records, flushes, run_calls}
use chalk_metrics.Slots.Count.Sums.{i64_sum, int_sum, deltas, run_calls-sum, flush-exact}
use chalk_metrics.Tests.Standins.{whole}

abbrev two_flushes : List CountCall
two_flushes = records (pos 5) ∷ flushes ∷ records (negsuc 2) ∷ flushes ∷ records (pos 1) ∷ []

run_calls-sum_example :
    i64_add (i64_sum (run_calls new_count two_flushes).0) (run_calls new_count two_flushes).1.value
    ≡ i64_add new_count.value (i64_sum (deltas two_flushes))
run_calls-sum_example = run_calls-sum new_count two_flushes

-- The first two deltas overflow.
abbrev overflowing : List ℤ
overflowing = pos (2 ^ 63 - 1) ∷ pos 2 ∷ negsuc 9 ∷ []

flush-exact_example :
    (flush_count (run_calls new_count (map records overflowing)).1).0 ≡ int_sum overflowing
flush-exact_example = flush-exact overflowing (unfold ◌+ℤ◌ in (omega arith, omega arith))
