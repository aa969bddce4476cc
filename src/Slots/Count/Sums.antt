-- ===== src/Slots/Count/Sums.antt =====
-- src/aggregator/count.rs: what a count slot returns over its life.
use chalk_metrics.Prelude.{◌≡◌, refl, sym, ap, ◌∙◌, List, [], ◌∷◌, map, arith}
use chalk_metrics.Prelude.Int.{ℤ, pos, i64_add, IsI64, ◌+ℤ◌, wrap_i64, i64_add-IsI64}
use chalk_metrics.Prelude.Int.Residues.{
  i64_add_comm, i64_add_assoc, i64_add-zero, i64_add-wrap, wrap_exact, +ℤ_assoc, +ℤ-zero, zero-+ℤ,
}
use chalk_metrics.Slots.Count.{
  CountSlot, new_count, record_count_slot, flush_count, CountCall, records, flushes, run_calls,
}

-- The sum of 64-bit numbers, as the atomic adds them.
abbrev pub i64_sum : List ℤ → ℤ
i64_sum [] = pos 0
i64_sum (x ∷ l) = i64_add x (i64_sum l)

-- The deltas that the calls record.
abbrev pub deltas : List CountCall → List ℤ
deltas [] = []
deltas (records d ∷ calls) = d ∷ deltas calls
deltas (flushes ∷ calls) = deltas calls

i64_sum-IsI64 : (l : List ℤ) → IsI64 (i64_sum l)
i64_sum-IsI64 [] = omega arith
i64_sum-IsI64 (x ∷ l) = i64_add-IsI64 x (i64_sum l)

-- Whatever the order of recordings and flushes, what the flushes returned and what is still in the
-- slot add up to the value at the start and the deltas, modulo 2 ^ 64.
pub run_calls-sum :
    (s : CountSlot) (calls : List CountCall)
    → i64_add (i64_sum (run_calls s calls).0) (run_calls s calls).1.value
      ≡ i64_add s.value (i64_sum (deltas calls))
unfolding run_calls record_count_slot flush_count
run_calls-sum s [] = i64_add_comm (pos 0) s.value
run_calls-sum s (records d ∷ calls) =
    run_calls-sum (record { value = i64_add s.value d }) calls
    ∙ i64_add_assoc s.value d (i64_sum (deltas calls))
run_calls-sum s (flushes ∷ calls) =
    let rest = run_calls (record { value = pos 0 }) calls in
    i64_add_assoc s.value (i64_sum rest.0) rest.1.value
    ∙ ap (i64_add s.value) (
        run_calls-sum (record { value = pos 0 }) calls
        ∙ i64_add-zero (i64_sum (deltas calls)) (i64_sum-IsI64 (deltas calls)))

-- The sum of integers.
abbrev pub int_sum : List ℤ → ℤ
int_sum [] = pos 0
int_sum (x ∷ l) = x +ℤ int_sum l

record_all : (a : ℤ) (l : List ℤ) → List ℤ × CountSlot
record_all a l = run_calls (record { value = wrap_i64 a }) (map records l)

record_all-value : (a : ℤ) (l : List ℤ) → (record_all a l).1.value ≡ wrap_i64 (a +ℤ int_sum l)
unfolding record_all run_calls record_count_slot
record_all-value a [] = ap wrap_i64 (sym (+ℤ-zero a))
record_all-value a (x ∷ l) =
    ap (λ v. (run_calls (record { value = v }) (map records l)).1.value) (i64_add-wrap a x)
    ∙ record_all-value (a +ℤ x) l
    ∙ ap wrap_i64 (+ℤ_assoc a x (int_sum l))

record_all_new : (l : List ℤ) → run_calls new_count (map records l) ≡ record_all (pos 0) l
unfolding record_all wrap_i64 new_count
record_all_new l = refl

-- Deltas that are recorded into a new slot and whose true sum fits an `i64` are flushed as that
-- sum, also where a partial sum does not fit.
pub flush-exact :
    (l : List ℤ)
    → IsI64 (int_sum l)
    → (flush_count (run_calls new_count (map records l)).1).0 ≡ int_sum l
unfolding flush_count
flush-exact l h =
    ap (λ r. r.1.value) (record_all_new l)
    ∙ record_all-value (pos 0) l
    ∙ ap wrap_i64 (zero-+ℤ (int_sum l))
    ∙ wrap_exact (int_sum l) h
