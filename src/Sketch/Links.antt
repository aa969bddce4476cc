-- ===== src/Sketch/Links.antt =====
-- src/aggregator/sketch.rs: `SketchHashMap`, a hash map whose entries are linked in the order of
-- their keys. A missing key panics. The loops that follow the links take fuel.
pub mod Represents
pub mod AddTo
pub mod Walk
pub mod Counts
pub mod Compacted
pub mod Rounds
pub mod Compaction
pub mod Iteration
pub mod Totals
pub mod Settling
pub mod Tallied
pub mod Counted
use Prim.Native.Nat.{zero as nat_zero}
use chalk_metrics.Prelude.{
  ℕ, suc, ◌≡◌, Bool, true, false, List, [], ◌∷◌, Option, none, some, ◌==◌, if◌then◌else◌, length,
  Outcome, ok, panic, out_of_fuel, ◌>>=◌, expect,
}
use chalk_metrics.Prelude.HashMap.{HashMap, get, put}
use chalk_metrics.Prelude.Int.{u64_add}
use chalk_metrics.Sketch.Key.{SketchHashKey, invalid, key_eq, compact_key, lt, gt}

pub record SketchHashEntry : Type 0 where
  pub count : ℕ
  pub next : SketchHashKey

pub record SketchHashMap : Type 0 where
  pub map : HashMap SketchHashKey SketchHashEntry
  pub head : SketchHashKey

unfoldable pub new : SketchHashMap
new = record { map = []; head = invalid }

-- `while key > next { prev = next; next = self.map[&next].next; }`
unfoldable pub walk :
    ℕ
    → HashMap SketchHashKey SketchHashEntry
    → SketchHashKey
    → SketchHashKey
    → SketchHashKey
    → Outcome (SketchHashKey × SketchHashKey)
walk nat_zero m key prev next = out_of_fuel
walk (suc fuel) m key prev next = elim (gt key next) [
  | false ↦ ok (prev, next)
  | true ↦ expect (get next m) >>= λ e. walk fuel m key next e.next
]

-- The map with the key linked in; the entry itself is then read at the key.
unfoldable pub entry : SketchHashMap → SketchHashKey → Outcome SketchHashMap
entry m key = elim (get key m.map) [
  | some e ↦ ok m
  | none ↦
      if lt key m.head
      then ok (record { map = put key (record { count = 0; next = m.head }) m.map; head = key })
      else do
        (prev, next) ← walk (suc (length m.map)) m.map key invalid m.head
        p ← expect (get prev m.map)
        let linked = put prev (record p { next = key }) m.map
        ok (record m { map = put key (record { count = 0; next = next }) linked })
]

-- `self.entry(key).count += n`
unfoldable pub add_count : SketchHashMap → SketchHashKey → ℕ → Outcome SketchHashMap
add_count m key n = do
  linked ← entry m key
  e ← expect (get key linked.map)
  ok (record linked { map = put key (record e { count = u64_add e.count n }) linked.map })

unfoldable pub increment : SketchHashMap → SketchHashKey → Outcome SketchHashMap
increment m key = add_count m key 1

-- What the iterator yields from `next_key` on.
unfoldable pub iter_from :
    ℕ → HashMap SketchHashKey SketchHashEntry → SketchHashKey → Outcome (List (SketchHashKey × ℕ))
iter_from nat_zero m next_key = out_of_fuel
iter_from (suc fuel) m next_key = elim (next_key == invalid) [
  | true ↦ ok []
  | false ↦ do
    e ← expect (get next_key m)
    rest ← iter_from fuel m e.next
    ok ((next_key, e.count) ∷ rest)
]

unfoldable pub iter : SketchHashMap → Outcome (List (SketchHashKey × ℕ))
iter m = iter_from (suc (length m.map)) m.map m.head

unfoldable pub len : SketchHashMap → ℕ
len m = length m.map

-- `self.map.entry(new_key).or_insert(SketchHashEntry { count: 0, next: new_next }).count += count`
unfoldable pub merge_into :
    HashMap SketchHashKey SketchHashEntry
    → SketchHashKey
    → SketchHashKey
    → ℕ
    → HashMap SketchHashKey SketchHashEntry
merge_into m new_key new_next count = elim (get new_key m) [
  | none ↦ put new_key (record { count = u64_add 0 count; next = new_next }) m
  | some e ↦ put new_key (record e { count = u64_add e.count count }) m
]

-- The link of the compacted entry: past a next entry that is merged with it.
unfoldable pub compact_next :
    HashMap SketchHashKey SketchHashEntry → SketchHashKey → SketchHashKey → Outcome SketchHashKey
compact_next old new_key next =
    if compact_key next == new_key
    then (do after ← expect (get next old); ok (compact_key after.next))
    else ok (compact_key next)

-- `while target != SketchHashKey::Invalid { .. }`
unfoldable pub compact_from :
    ℕ
    → HashMap SketchHashKey SketchHashEntry
    → SketchHashKey
    → HashMap SketchHashKey SketchHashEntry
    → Outcome (HashMap SketchHashKey SketchHashEntry)
compact_from nat_zero old target m = out_of_fuel
compact_from (suc fuel) old target m = elim (target == invalid) [
  | true ↦ ok m
  | false ↦ do
    old_entry ← expect (get target old)
    new_next ← compact_next old (compact_key target) old_entry.next
    compact_from fuel old old_entry.next
        (merge_into m (compact_key target) new_next old_entry.count)
]

unfoldable pub compact : SketchHashMap → Outcome SketchHashMap
compact m = do
  merged ← compact_from (suc (length m.map)) m.map m.head []
  ok (record { map = merged; head = compact_key m.head })
