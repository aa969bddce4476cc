-- ===== src/Sketch/Links/Counted.antt =====
-- src/aggregator/sketch.rs: how many of the tallied keys lie below a key, or do not lie above it.
use chalk_metrics.Prelude.{
  ℕ, ◌+◌, ◌<◌, ◌≡◌, refl, ap, sym, ◌∙◌, List, [], ◌∷◌, ◌++◌, length, arith, inl, inr, Ordering,
  Ordering-cases, All,
}
use chalk_metrics.Prelude.Int.{u64_add, u64_mod}
use chalk_metrics.Sketch.Key.{SketchHashKey, Lt, partial_cmp}
use chalk_metrics.Sketch.Key.Order.{cmp_eq, cmp_refl, cmp_trans}
use chalk_metrics.Sketch.Links.Represents.{Buckets, first, IsSorted, add_to, lt-gt}
use chalk_metrics.Sketch.Links.Tallied.{tallied}
use chalk_metrics.Sketch.Links.Totals.{sum}

-- One more, where the first key is below the second; where it is not above it.
abbrev pub if_lt : Ordering → ℕ → ℕ → ℕ
if_lt Ordering.lt c n = c + n
if_lt Ordering.eq c n = n
if_lt Ordering.gt c n = n

abbrev pub if_le : Ordering → ℕ → ℕ → ℕ
if_le Ordering.lt c n = c + n
if_le Ordering.eq c n = c + n
if_le Ordering.gt c n = n

abbrev pub count_lt : SketchHashKey → List SketchHashKey → ℕ
count_lt b [] = 0
count_lt b (k ∷ ks) = if_lt (partial_cmp k b) 1 (count_lt b ks)

abbrev pub count_le : SketchHashKey → List SketchHashKey → ℕ
count_le b [] = 0
count_le b (k ∷ ks) = if_le (partial_cmp k b) 1 (count_le b ks)

-- The same of buckets, by their counts, for either test.
abbrev sum_by : (Ordering → ℕ → ℕ → ℕ) → SketchHashKey → Buckets → ℕ
sum_by f b [] = 0
sum_by f b ((k, c) ∷ l) = f (partial_cmp k b) c (sum_by f b l)

-- A test that adds a count or leaves it.
abbrev IsTest : (Ordering → ℕ → ℕ → ℕ) → Type 0
IsTest f =
    ((o : Ordering) (c n : ℕ) → f o (c + 1) n ≡ f o 1 (f o c n))
    × ((o p : Ordering) (c d n : ℕ) → f o c (f p d n) ≡ f p d (f o c n))

if_lt-IsTest : IsTest if_lt
if_lt-IsTest = (twice, swap)
  where
    twice : (o : Ordering) (c n : ℕ) → if_lt o (c + 1) n ≡ if_lt o 1 (if_lt o c n)
    twice Ordering.lt c n = omega arith
    twice Ordering.eq c n = refl
    twice Ordering.gt c n = refl

    swap : (o p : Ordering) (c d n : ℕ) → if_lt o c (if_lt p d n) ≡ if_lt p d (if_lt o c n)
    swap Ordering.lt Ordering.lt c d n = omega arith
    swap Ordering.lt Ordering.eq c d n = refl
    swap Ordering.lt Ordering.gt c d n = refl
    swap Ordering.eq p c d n = refl
    swap Ordering.gt p c d n = refl

if_le-IsTest : IsTest if_le
if_le-IsTest = (twice, swap)
  where
    twice : (o : Ordering) (c n : ℕ) → if_le o (c + 1) n ≡ if_le o 1 (if_le o c n)
    twice Ordering.lt c n = omega arith
    twice Ordering.eq c n = omega arith
    twice Ordering.gt c n = refl

    swap : (o p : Ordering) (c d n : ℕ) → if_le o c (if_le p d n) ≡ if_le p d (if_le o c n)
    swap Ordering.lt Ordering.lt c d n = omega arith
    swap Ordering.lt Ordering.eq c d n = omega arith
    swap Ordering.lt Ordering.gt c d n = refl
    swap Ordering.eq Ordering.lt c d n = omega arith
    swap Ordering.eq Ordering.eq c d n = omega arith
    swap Ordering.eq Ordering.gt c d n = refl
    swap Ordering.gt p c d n = refl

small_add : (c n : ℕ) → c + n < u64_mod → u64_add c n ≡ c + n
unfolding u64_add
small_add c n h = omega arith

sum_by-add_to :
    (f : Ordering → ℕ → ℕ → ℕ)
    → IsTest f
    → (b k : SketchHashKey) (l : Buckets) → sum l + 1 < u64_mod
    → sum_by f b (add_to k 1 l) ≡ f (partial_cmp k b) 1 (sum_by f b l)
unfolding add_to
sum_by-add_to f t b k [] h = ap (λ x. f (partial_cmp k b) x 0) (small_add 0 1 (omega arith))
sum_by-add_to f t b k ((j, c) ∷ l) h = elim (Ordering-cases (partial_cmp k j)) [
  | inl lt ↦
      rw (lt, add_to)
        (ap (λ x. f (partial_cmp k b) x (f (partial_cmp j b) c (sum_by f b l)))
          (small_add 0 1 (omega arith)))
  | inr (inl eq) ↦
      rw (eq, add_to)
        (ap (λ x. f (partial_cmp j b) x (sum_by f b l)) (small_add c 1 (omega arith))
          ∙ t.0 (partial_cmp j b) c (sum_by f b l)
          ∙ ap (λ x. f (partial_cmp x b) 1 (f (partial_cmp j b) c (sum_by f b l)))
              (sym (cmp_eq k j eq)))
  | inr (inr gt) ↦
      rw (gt, add_to)
        (ap (f (partial_cmp j b) c) (sum_by-add_to f t b k l (omega arith))
          ∙ t.1 (partial_cmp j b) (partial_cmp k b) c 1 (sum_by f b l))
]

sum-add_to :
    (k : SketchHashKey) (l : Buckets) → sum l + 1 < u64_mod → sum (add_to k 1 l) ≡ sum l + 1
unfolding add_to
sum-add_to k [] h = omega (arith, small_add 0 1 (omega arith))
sum-add_to k ((j, c) ∷ l) h = elim (Ordering-cases (partial_cmp k j)) [
  | inl lt ↦ rw (lt, add_to) (omega (arith, small_add 0 1 (omega arith)))
  | inr (inl eq) ↦ rw (eq, add_to) (omega (arith, small_add c 1 (omega arith)))
  | inr (inr gt) ↦ rw (gt, add_to) (omega (arith, sum-add_to k l (omega arith)))
]

pub sum-tallied : (ks : List SketchHashKey) → length ks < u64_mod → sum (tallied ks) ≡ length ks
sum-tallied [] h = refl
sum-tallied (k ∷ ks) h =
    let ih = sum-tallied ks (omega arith) in
    omega (arith, ih, sum-add_to k (tallied ks) (omega (arith, ih)))

lt_tallied :
    (b : SketchHashKey) (ks : List SketchHashKey)
    → length ks < u64_mod
    → sum_by if_lt b (tallied ks) ≡ count_lt b ks
lt_tallied b [] h = refl
lt_tallied b (k ∷ ks) h =
    sum_by-add_to if_lt if_lt-IsTest b k (tallied ks) (omega (arith, sum-tallied ks (omega arith)))
    ∙ ap (if_lt (partial_cmp k b) 1) (lt_tallied b ks (omega arith))

le_tallied :
    (b : SketchHashKey) (ks : List SketchHashKey)
    → length ks < u64_mod
    → sum_by if_le b (tallied ks) ≡ count_le b ks
le_tallied b [] h = refl
le_tallied b (k ∷ ks) h =
    sum_by-add_to if_le if_le-IsTest b k (tallied ks) (omega (arith, sum-tallied ks (omega arith)))
    ∙ ap (if_le (partial_cmp k b) 1) (le_tallied b ks (omega arith))

-- Every bucket counts one key at least.
abbrev pub ArePositive : Buckets → Type 0
ArePositive l = All (λ (e : SketchHashKey × ℕ). 0 < e.1) l

add_to-ArePositive :
    (k : SketchHashKey) (l : Buckets)
    → sum l + 1 < u64_mod
    → ArePositive l
    → ArePositive (add_to k 1 l)
unfolding add_to
add_to-ArePositive k [] h p = (omega (arith, small_add 0 1 (omega arith)), tt)
add_to-ArePositive k ((j, c) ∷ l) h p = elim (Ordering-cases (partial_cmp k j)) [
  | inl lt ↦ rw (lt, add_to) (omega (arith, small_add 0 1 (omega arith)), p)
  | inr (inl eq) ↦ rw (eq, add_to) (omega (arith, small_add c 1 (omega arith)), p.1)
  | inr (inr gt) ↦ rw (gt, add_to) (p.0, add_to-ArePositive k l (omega arith) p.1)
]

pub tallied-ArePositive : (ks : List SketchHashKey) → length ks < u64_mod → ArePositive (tallied ks)
tallied-ArePositive [] h = tt
tallied-ArePositive (k ∷ ks) h =
    add_to-ArePositive k (tallied ks) (omega (arith, sum-tallied ks (omega arith)))
      (tallied-ArePositive ks (omega arith))

-- Above the last key of interest nothing is counted.
sum_above :
    (b : SketchHashKey) (l : Buckets)
    → IsSorted l
    → Lt b (first l)
    → (sum_by if_lt b l ≡ 0) × (sum_by if_le b l ≡ 0)
sum_above b [] s h = (refl, refl)
sum_above b ((j, c) ∷ l) s h =
    let rest = sum_above b l s.2 (cmp_trans b j (first l) h s.1) in rw (lt-gt b j h) rest

-- The keys in front of a bucket are below its own.
below_bucket :
    (i : SketchHashKey) (d : ℕ) (before : Buckets) (b : SketchHashKey) (c : ℕ) (after : Buckets)
    → IsSorted ((i, d) ∷ before ++ ((b, c) ∷ after))
    → Lt i b
below_bucket i d [] b c after s = s.1
below_bucket i d ((j, e) ∷ before) b c after s =
    cmp_trans i j b s.1 (below_bucket j e before b c after s.2)

split_sums :
    (before : Buckets) (b : SketchHashKey) (c : ℕ) (after : Buckets)
    → IsSorted (before ++ ((b, c) ∷ after))
    → (sum_by if_lt b (before ++ ((b, c) ∷ after)) ≡ sum before)
      × (sum_by if_le b (before ++ ((b, c) ∷ after)) ≡ sum before + c)
split_sums [] b c after s =
    let (none, none') = sum_above b after s.2 s.1 in rw (cmp_refl b) (none, omega (arith, none'))
split_sums ((i, d) ∷ before) b c after s =
    let (l, r) = split_sums before b c after s.2 in
    rw (below_bucket i d before b c after s) (omega (arith, l), omega (arith, r))

-- Of a bucket of the tally: the keys that are below it, and those that are not above it.
pub counts-tallied :
    (ks : List SketchHashKey) (before : Buckets) (b : SketchHashKey) (c : ℕ) (after : Buckets)
    → length ks < u64_mod
    → IsSorted (tallied ks)
    → tallied ks ≡ before ++ ((b, c) ∷ after)
    → (count_lt b ks ≡ sum before) × (count_le b ks ≡ sum before + c)
counts-tallied ks before b c after h s e =
    let (l, r) = split_sums before b c after (rw e at s) in
    (
      sym (lt_tallied b ks h) ∙ ap (sum_by if_lt b) e ∙ l,
      sym (le_tallied b ks h) ∙ ap (sum_by if_le b) e ∙ r,
    )
