-- ===== src/Sketch/Links/Tallied.antt =====
-- src/aggregator/sketch.rs: the buckets as the tally of a list of keys, which forgets their order.
use Prim.Native.Nat.{zero}
use mathlib.Core.List.{map-id, map-map}
use mathlib.Core.Path.{fun_ext}
use chalk_metrics.Prelude.{
  ℕ, suc, ◌+◌, ◌≡◌, refl, sym, ap, ◌∙◌, List, [], ◌∷◌, ◌++◌, map, inl, inr, Ordering-cases, arith,
}
use chalk_metrics.Prelude.Int.{u64_add, u64_add_assoc, u64_add_comm}
use chalk_metrics.Sketch.Key.{SketchHashKey, Lt, partial_cmp, compact_key}
use chalk_metrics.Sketch.Key.Order.{cmp_eq, cmp_refl, cmp_trans}
use chalk_metrics.Sketch.Links.AddTo.{add_to_lt, add_to_eq, add_to_gt, first-add_to}
use chalk_metrics.Sketch.Links.Represents.{Buckets, add_to, compacted, gt-lt}
use chalk_metrics.Sketch.Links.Settling.{compacted_times}

-- Each key counted once.
abbrev pub tallied : List SketchHashKey → Buckets
tallied [] = []
tallied (k ∷ ks) = add_to k 1 (tallied ks)

-- Two counts at one key.
add_to_twice :
    (k : SketchHashKey) (n m : ℕ) (l : Buckets)
    → add_to k n (add_to k m l) ≡ add_to k (u64_add m n) l
unfolding add_to
add_to_twice k n m [] = rw (cmp_refl k, add_to) (ap (λ x. (k, x) ∷ []) (u64_add_assoc 0 m n))
add_to_twice k n m ((j, c) ∷ l) = elim (Ordering-cases (partial_cmp k j)) [
  | inl lt ↦
      rw (lt, add_to)
        (rw (cmp_refl k, add_to) (ap (λ x. (k, x) ∷ (j, c) ∷ l) (u64_add_assoc 0 m n)))
  | inr (inl eq) ↦ rw (eq, add_to) (rw (eq, add_to) (ap (λ x. (j, x) ∷ l) (u64_add_assoc c m n)))
  | inr (inr gt) ↦ rw (gt, add_to) (rw (gt, add_to) (ap (◌∷◌ (j, c)) (add_to_twice k n m l)))
]

-- Counts at two keys, the lower one named first.
add_to_comm_lt :
    (k : SketchHashKey) (n : ℕ) (j : SketchHashKey) (m : ℕ) (l : Buckets)
    → Lt k j
    → add_to k n (add_to j m l) ≡ add_to j m (add_to k n l)
unfolding add_to
add_to_comm_lt k n j m [] h =
    add_to_lt k n ((j, u64_add 0 m) ∷ []) h ∙ sym (add_to_gt j m k (u64_add 0 n) [] h)
add_to_comm_lt k n j m ((i, c) ∷ l) h = elim (Ordering-cases (partial_cmp k i)) [
  | inl lt ↦
      add_to_lt k n (add_to j m ((i, c) ∷ l)) (first-add_to j m k ((i, c) ∷ l) h lt)
      ∙ sym (
          ap (add_to j m) (add_to_lt k n ((i, c) ∷ l) lt)
          ∙ add_to_gt j m k (u64_add 0 n) ((i, c) ∷ l) h)
  | inr (inl eq) ↦
      let below : Lt i j = rw (cmp_eq k i eq) at h in
      ap (add_to k n) (add_to_gt j m i c l below)
      ∙ add_to_eq k n i c (add_to j m l) eq
      ∙ sym (ap (add_to j m) (add_to_eq k n i c l eq) ∙ add_to_gt j m i (u64_add c n) l below)
  | inr (inr gt) ↦
      let under : Lt i k = gt-lt k i gt in
      let below : Lt i j = cmp_trans i k j under h in
      ap (add_to k n) (add_to_gt j m i c l below)
      ∙ add_to_gt k n i c (add_to j m l) under
      ∙ ap (◌∷◌ (i, c)) (add_to_comm_lt k n j m l h)
      ∙ sym (ap (add_to j m) (add_to_gt k n i c l under) ∙ add_to_gt j m i c (add_to k n l) below)
]

-- The order of two counts is irrelevant.
pub add_to_comm :
    (k : SketchHashKey) (n : ℕ) (j : SketchHashKey) (m : ℕ) (l : Buckets)
    → add_to k n (add_to j m l) ≡ add_to j m (add_to k n l)
add_to_comm k n j m l = elim (Ordering-cases (partial_cmp k j)) [
  | inl lt ↦ add_to_comm_lt k n j m l lt
  | inr (inl eq) ↦ rw (cmp_eq k j eq) (
      add_to_twice j n m l ∙ ap (λ x. add_to j x l) (u64_add_comm m n) ∙ sym (add_to_twice j m n l))
  | inr (inr gt) ↦ sym (add_to_comm_lt j m k n l (gt-lt k j gt))
]

u64_add-wrapped : (c n : ℕ) → u64_add c (u64_add 0 n) ≡ u64_add c n
unfolding u64_add
u64_add-wrapped c n = omega arith

add_to_wrapped : (k : SketchHashKey) (n : ℕ) (l : Buckets) → add_to k (u64_add 0 n) l ≡ add_to k n l
unfolding add_to
add_to_wrapped k n [] = ap (λ x. (k, x) ∷ []) (u64_add-wrapped 0 n)
add_to_wrapped k n ((j, c) ∷ l) = elim (Ordering-cases (partial_cmp k j)) [
  | inl lt ↦ rw (lt, add_to) (ap (λ x. (k, x) ∷ (j, c) ∷ l) (u64_add-wrapped 0 n))
  | inr (inl eq) ↦ rw (eq, add_to) (ap (λ x. (j, x) ∷ l) (u64_add-wrapped c n))
  | inr (inr gt) ↦ rw (gt, add_to) (ap (◌∷◌ (j, c)) (add_to_wrapped k n l))
]

-- A compaction of the buckets with one count more.
pub compacted-add_to :
    (k : SketchHashKey) (n : ℕ) (l : Buckets)
    → compacted (add_to k n l) ≡ add_to (compact_key k) n (compacted l)
unfolding add_to compacted
compacted-add_to k n [] = add_to_wrapped (compact_key k) n []
compacted-add_to k n ((j, c) ∷ l) = elim (Ordering-cases (partial_cmp k j)) [
  | inl lt ↦
      ap compacted (add_to_lt k n ((j, c) ∷ l) lt)
      ∙ add_to_wrapped (compact_key k) n (compacted ((j, c) ∷ l))
  | inr (inl eq) ↦
      ap compacted (add_to_eq k n j c l eq)
      ∙ sym (add_to_twice (compact_key j) n c (compacted l))
      ∙ ap (λ x. add_to (compact_key x) n (compacted ((j, c) ∷ l))) (sym (cmp_eq k j eq))
  | inr (inr gt) ↦
      ap compacted (add_to_gt k n j c l (gt-lt k j gt))
      ∙ ap (add_to (compact_key j) c) (compacted-add_to k n l)
      ∙ add_to_comm (compact_key j) c (compact_key k) n (compacted l)
]

compacted-tallied :
    (ks : List SketchHashKey) → compacted (tallied ks) ≡ tallied (map compact_key ks)
unfolding compacted
compacted-tallied [] = refl
compacted-tallied (k ∷ ks) =
    compacted-add_to k 1 (tallied ks) ∙ ap (add_to (compact_key k) 1) (compacted-tallied ks)

-- A number of compactions of one key.
abbrev pub compact_key_times : ℕ → SketchHashKey → SketchHashKey
compact_key_times zero k = k
compact_key_times (suc n) k = compact_key_times n (compact_key k)

pub zero_plus : (m : ℕ) → m ≡ 0 + m
zero_plus m = omega arith

pub suc_plus : (n m : ℕ) → suc (n + m) ≡ suc n + m
suc_plus n m = omega arith

pub compact_key_times-add :
    (n m : ℕ) (k : SketchHashKey)
    → compact_key_times m (compact_key_times n k) ≡ compact_key_times (n + m) k
compact_key_times-add zero m k = ap (λ x. compact_key_times x k) (zero_plus m)
compact_key_times-add (suc n) m k =
    compact_key_times-add n m (compact_key k) ∙ ap (λ x. compact_key_times x k) (suc_plus n m)

pub map-compact_key_times :
    (n m : ℕ) (ks : List SketchHashKey)
    → map (compact_key_times m) (map (compact_key_times n) ks) ≡ map (compact_key_times (n + m)) ks
map-compact_key_times n m ks =
    map-map (compact_key_times m) (compact_key_times n) ks
    ∙ ap (λ f. map f ks) (fun_ext (compact_key_times-add n m))

-- The buckets compacted some times over are the tally of the keys compacted as often.
pub compacted_times-tallied :
    (n : ℕ) (ks : List SketchHashKey)
    → compacted_times n (tallied ks) ≡ tallied (map (compact_key_times n) ks)
compacted_times-tallied zero ks = ap tallied (sym (map-id ks))
compacted_times-tallied (suc n) ks =
    ap (compacted_times n) (compacted-tallied ks)
    ∙ compacted_times-tallied n (map compact_key ks)
    ∙ ap tallied (map-map (compact_key_times n) compact_key ks)

-- Every bucket of the first list counted in the second.
abbrev pub add_list : Buckets → Buckets → Buckets
add_list [] l = l
add_list ((k, c) ∷ o) l = add_list o (add_to k c l)

add_list_comm :
    (k : SketchHashKey) (n : ℕ) (o l : Buckets)
    → add_list o (add_to k n l) ≡ add_to k n (add_list o l)
add_list_comm k n [] l = refl
add_list_comm k n ((j, c) ∷ o) l =
    ap (add_list o) (add_to_comm j c k n l) ∙ add_list_comm k n o (add_to j c l)

add_list-add_to :
    (k : SketchHashKey) (n : ℕ) (o l : Buckets)
    → add_list (add_to k n o) l ≡ add_to k n (add_list o l)
unfolding add_to
add_list-add_to k n [] l = add_to_wrapped k n l
add_list-add_to k n ((j, c) ∷ o) l = elim (Ordering-cases (partial_cmp k j)) [
  | inl lt ↦
      rw (lt, add_to)
        (add_list_comm k (u64_add 0 n) ((j, c) ∷ o) l
          ∙ add_to_wrapped k n (add_list o (add_to j c l)))
  | inr (inl eq) ↦
      rw (eq, add_to)
        (ap (add_list o) (sym (add_to_twice j n c l))
          ∙ add_list_comm j n o (add_to j c l)
          ∙ ap (λ x. add_to x n (add_list o (add_to j c l))) (sym (cmp_eq k j eq)))
  | inr (inr gt) ↦ rw (gt, add_to) (add_list-add_to k n o (add_to j c l))
]

-- The tally of two lists together.
pub add_list-tallied :
    (ks js : List SketchHashKey) → add_list (tallied ks) (tallied js) ≡ tallied (ks ++ js)
add_list-tallied [] js = refl
add_list-tallied (k ∷ ks) js =
    add_list-add_to k 1 (tallied ks) (tallied js) ∙ ap (add_to k 1) (add_list-tallied ks js)
