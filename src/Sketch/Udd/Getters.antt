-- ===== src/Sketch/Udd/Getters.antt =====
-- src/aggregator/sketch.rs: what `UDDSketch` shows of itself, and the indexing of its map.
use chalk_metrics.Float.{Float}
use chalk_metrics.Prelude.{ℕ, List, none, some, Outcome, ok, panic}
use chalk_metrics.Prelude.HashMap.{get}
use chalk_metrics.Sketch.Key.{SketchHashKey, key_eq}
use chalk_metrics.Sketch.Links.{SketchHashMap, iter, len}
use chalk_metrics.Sketch.Udd.{UddSketch, key}

-- `map[&id]` panics on a missing key.
unfoldable pub index : SketchHashMap → SketchHashKey → Outcome ℕ
index m id = elim (get id m.map) [ none ↦ panic | some entry ↦ ok entry.count ]

module _ {F : Type 0} where
  unfoldable pub sum : UddSketch F → F
  sum s = s.values_sum

  unfoldable pub count : UddSketch F → ℕ
  count s = s.num_values

  unfoldable pub min : UddSketch F → F
  min s = s.min

  unfoldable pub max : UddSketch F → F
  max s = s.max

  unfoldable pub zero_count : UddSketch F → ℕ
  zero_count s = s.zero_count

  unfoldable pub max_error : UddSketch F → F
  max_error s = s.alpha

  unfoldable pub current_buckets_count : UddSketch F → ℕ
  current_buckets_count s = len s.buckets

  unfoldable pub bucket_iter : UddSketch F → Outcome (List (SketchHashKey × ℕ))
  bucket_iter s = iter s.buckets

module _ ⦃fl : Float⦄ where
  open fl use {F}

  unfoldable pub key_for_value : UddSketch F → F → SketchHashKey
  key_for_value s value = key s value
