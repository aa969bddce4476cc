-- ===== src/Slots/Gauge.antt =====
-- src/aggregator/gauge.rs: `GaugeSlot`, the bits of the last value or a sentinel.
use chalk_metrics.Float.{Float, IsFloat}
use chalk_metrics.Prelude.{
  ℕ, ◌-◌, ◌^◌, ◌≡◌, refl, Bool, not, Option, some, none, arith, if◌then◌else◌, ◌==◌, nat_eq,
}

pub record GaugeSlot : Type 0 where
  pub bits : ℕ

-- `u64::MAX`
abbrev pub unset : ℕ
unset = 2 ^ 64 - 1

unfoldable pub new_gauge : GaugeSlot
new_gauge = record { bits = unset }

module _ ⦃fl : Float⦄ where
  open fl use {F}

  unfoldable pub record_gauge_slot : GaugeSlot → F → GaugeSlot
  record_gauge_slot s value = record { bits = fl.to_bits value }

  unfoldable pub flush_gauge : GaugeSlot → Option F
  flush_gauge s = if s.bits == unset then none else some (fl.from_bits s.bits)

unfoldable pub has_value : GaugeSlot → Bool
has_value s = not (s.bits == unset)

-- Over the laws of `to_bits` and `from_bits`, a flush after a recording returns the recorded
-- value, and `has_value` holds, unless the bits of the value are the sentinel, which reads as
-- unset.
pub flush-record :
    ⦃fl : Float⦄
    → IsFloat fl
    → (s : GaugeSlot) (v : fl.F)
    → (flush_gauge (record_gauge_slot s v) ≡ (if fl.to_bits v == unset then none else some v))
      × (has_value (record_gauge_slot s v) ≡ not (fl.to_bits v == unset))
unfolding flush_gauge record_gauge_slot has_value
flush-record ⦃fl⦄ law s v = (ground (arith, law.from_bits-to_bits v), refl)
