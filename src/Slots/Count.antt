-- ===== src/Slots/Count.antt =====
-- src/aggregator/count.rs: `CountSlot`, an `AtomicI64` that wraps.
pub mod Sums
use chalk_metrics.Prelude.{ℕ, ◌≡◌, refl, sym, ap, ◌∙◌, List, [], ◌∷◌, arith}
use chalk_metrics.Prelude.Int.{ℤ, pos, i64_add}

pub record CountSlot : Type 0 where
  pub value : ℤ

unfoldable pub new_count : CountSlot
new_count = record { value = pos 0 }

-- `fetch_add`
unfoldable pub record_count_slot : CountSlot → ℤ → CountSlot
record_count_slot s delta = record { value = i64_add s.value delta }

-- `swap(0)`
unfoldable pub flush_count : CountSlot → ℤ × CountSlot
flush_count s = (s.value, record { value = pos 0 })

-- The calls on one slot, in the order in which the atomic makes them.
pub data CountCall : Type 0 where
  records : ℤ → CountCall
  flushes : CountCall

-- The slot after the calls, and what the flushes returned.
unfoldable pub run_calls : CountSlot → List CountCall → List ℤ × CountSlot
run_calls s [] = ([], s)
run_calls s (records delta ∷ calls) = run_calls (record_count_slot s delta) calls
run_calls s (flushes ∷ calls) =
    let (value, s') = flush_count s in
    let (values, s'') = run_calls s' calls in (value ∷ values, s'')
