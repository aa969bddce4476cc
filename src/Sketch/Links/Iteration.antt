-- ===== src/Sketch/Links/Iteration.antt =====
-- src/aggregator/sketch.rs: `SketchHashMap::new`, `len` and the iterator.
use Prim.Native.Nat.{zero}
use chalk_metrics.Prelude.{ℕ, suc, ◌<◌, ◌≡◌, refl, [], ◌∷◌, length, arith, ok}
use chalk_metrics.Prelude.HashMap.{get}
use chalk_metrics.Sketch.Key.{invalid, key_eq}
use chalk_metrics.Sketch.Links.{SketchHashMap, new, iter_from, iter, len}
use chalk_metrics.Sketch.Links.Compacted.{lt-invalid}
use chalk_metrics.Sketch.Links.Walk.{Table}
use chalk_metrics.Sketch.Links.Represents.{Buckets, first, IsSorted, IsLinked, Represents, ne_of_lt}

pub new-Represents : Represents new []
unfolding new get
new-Represents = record {
  head = refl;
  linked = tt;
  sorted = tt;
  counted = refl;
  only = λ k h. refl;
}

iter_from_lem :
    (fuel : ℕ) (m : Table) (l : Buckets)
    → length l < fuel
    → IsLinked m l
    → IsSorted l
    → iter_from fuel m (first l) ≡ ok l
unfolding iter_from
iter_from_lem zero m l f ln s = absurd (omega arith)
iter_from_lem (suc fuel) m [] f ln s = refl
iter_from_lem (suc fuel) m ((k, c) ∷ l) f ln s =
    rw (ne_of_lt k invalid (lt-invalid k c l s), iter_from)
      (rw ln.0 (rw (iter_from_lem fuel m l (omega arith) ln.1 s.2)))

-- On a map that represents a sorted list of buckets the iterator ends, without a panic, and yields
-- these buckets in their order.
pub iter-Represents : (m : SketchHashMap) (l : Buckets) → Represents m l → iter m ≡ ok l
unfolding iter
iter-Represents m l rep =
    rw rep.head (
      iter_from_lem (suc (length m.map)) m.map l (omega (arith, rep.counted)) rep.linked rep.sorted)

pub len-Represents : (m : SketchHashMap) (l : Buckets) → Represents m l → len m ≡ length l
unfolding len
len-Represents m l rep = rep.counted
