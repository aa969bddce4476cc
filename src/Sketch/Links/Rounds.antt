-- ===== src/Sketch/Links/Rounds.antt =====
-- src/aggregator/sketch.rs, `SketchHashMap::compact`: the rounds of its loop.
use chalk_metrics.Prelude.{
  ℕ, suc, ◌+◌, ◌≡◌, ==_ne, sym, ap, ◌∙◌, true, false, ◌∷◌, ◌==◌, length, arith, ok, some, none,
  ==_refl,
}
use chalk_metrics.Prelude.HashMap.{
  get, put, get-put_self, get-put_ne, length-put_absent, length-put_present,
}
use chalk_metrics.Prelude.Int.{u64_add}
use chalk_metrics.Sketch.Key.{SketchHashKey, invalid, key_eq, key_beq_iff, Lt, compact_key}
use chalk_metrics.Sketch.Key.Compact.{compact_key_apart}
use chalk_metrics.Sketch.Links.{SketchHashEntry, compact_from, compact_next, merge_into}
use chalk_metrics.Sketch.Links.AddTo.{has-add_to}
use chalk_metrics.Sketch.Links.Walk.{Table, below-ne}
use chalk_metrics.Sketch.Links.Represents.{
  Buckets, first, IsSorted, has, compacted, IsLinked, has-below, ne_of_lt, ne_of_gt,
}
use chalk_metrics.Sketch.Links.Compacted.{
  lt-invalid, first-compacted, first-IsInRange, compacted_apart, compacted_merged,
  compacted-IsSorted,
}

module _ (old : Table) where
  from_step :
      (fuel : ℕ) (target next : SketchHashKey) (t : Table) (e : SketchHashEntry)
      → (target == invalid) ≡ false
      → get target old ≡ some e
      → compact_next old (compact_key target) e.next ≡ ok next
      → compact_from (suc fuel) old target t
        ≡ compact_from fuel old e.next (merge_into t (compact_key target) next e.count)
  unfolding compact_from
  from_step fuel target next t e valid g run = rw (valid, compact_from) (rw g (rw run))

  next_apart :
      (k next : SketchHashKey)
      → Lt k (compact_key next)
      → compact_next old k next ≡ ok (compact_key next)
  unfolding compact_next
  next_apart k next h = rw (ne_of_gt (compact_key next) k h)

  next_merged :
      (k next : SketchHashKey) (e : SketchHashEntry)
      → k ≡ compact_key next
      → get next old ≡ some e
      → compact_next old k next ≡ ok (compact_key e.next)
  unfolding compact_next
  next_merged k next e h g = rw ((key_beq_iff (compact_key next) k).1 (sym h)) (rw g)

merge_new :
    (t : Table) (k next : SketchHashKey) (n : ℕ)
    → get k t ≡ none
    → merge_into t k next n ≡ put k (record { count = u64_add 0 n; next = next }) t
unfolding merge_into
merge_new t k next n g = rw (g, merge_into)

merge_old :
    (t : Table) (k next : SketchHashKey) (n : ℕ) (e : SketchHashEntry)
    → get k t ≡ some e
    → merge_into t k next n ≡ put k (record e { count = u64_add e.count n }) t
unfolding merge_into
merge_old t k next n e g = rw (g, merge_into)

-- What the loop has made of the table `t` when it has passed the buckets `l`.
abbrev pub Merges : Buckets → Table → Table → Type 0
Merges l t r =
    IsLinked r (compacted l)
    × (length r ≡ length t + length (compacted l))
    × ((q : SketchHashKey) → has q (compacted l) ≡ false → get q r ≡ get q t)

abbrev pub IsFresh : Buckets → Table → Type 0
IsFresh l t = (q : SketchHashKey) → has q (compacted l) ≡ true → get q t ≡ none

-- A round of the loop, or two, has put the first compacted entry and goes on with the rest.
pub record Round (k : SketchHashKey) (n : ℕ) (whole l : Buckets) (t u : Table) : Type 0 where
  form : compacted whole ≡ (k, n) ∷ compacted l
  sorted : IsSorted l
  below : Lt k (first (compacted l))
  new : get k u ≡ some (record { count = n; next = first (compacted l) })
  same : (q : SketchHashKey) → (k == q) ≡ false → get q u ≡ get q t
  long : length u ≡ suc (length t)

module _ (k : SketchHashKey) (n : ℕ) (whole l : Buckets) (t u : Table)
    (o : Round k n whole l t u) where
  pub round-IsFresh : IsFresh whole t → IsFresh l u
  unfolding has
  round-IsFresh fresh q h =
      o.same q (==_ne k q (below-ne k q (compacted l) (compacted-IsSorted l o.sorted) o.below h))
      ∙ fresh q (rw o.form (ground arith))

  round_not_has :
      (q : SketchHashKey)
      → has q (compacted whole) ≡ false
      → ((k == q) ≡ false) × (has q (compacted l) ≡ false)
  unfolding has
  round_not_has q h = let g : has q ((k, n) ∷ compacted l) ≡ false = rw o.form at h in ground arith

  pub round-Merges : (r : Table) → Merges l u r → Merges whole t r
  round-Merges r (ln, len, keep) = (
    rw o.form
        (keep k (has-below k (compacted l) (compacted-IsSorted l o.sorted) o.below) ∙ o.new, ln),
    rw o.form (omega (arith, o.long)),
    λ q h. let (apart, gone) = round_not_has q h in keep q gone ∙ o.same q apart,
  )

pub head_absent :
    (k : SketchHashKey) (c : ℕ) (l : Buckets) (t : Table)
    → IsFresh ((k, c) ∷ l) t
    → get (compact_key k) t ≡ none
unfolding compacted
head_absent k c l t fresh =
    fresh (compact_key k)
      (rw (has-add_to (compact_key k) c (compact_key k) (compacted l), ==_refl (compact_key k)))

-- One round, where the next key stays apart.
module _ (old : Table) (k : SketchHashKey) (c : ℕ) (l : Buckets) (t : Table)
    (ln : IsLinked old ((k, c) ∷ l)) (s : IsSorted ((k, c) ∷ l))
    (apart : Lt (compact_key k) (compact_key (first l))) where
  pub one : Table
  one = put (compact_key k) (record { count = u64_add 0 c; next = compact_key (first l) }) t

  pub one-Round :
      get (compact_key k) t ≡ none → Round (compact_key k) (u64_add 0 c) ((k, c) ∷ l) l t one
  unfolding one
  one-Round absent = record {
    form = compacted_apart k c l s.2 apart;
    sorted = s.2;
    below = rw (first-compacted l s.2) apart;
    new = rw (first-compacted l s.2) (get-put_self (compact_key k) _ t);
    same = λ q h. get-put_ne (compact_key k) q _ t h;
    long = length-put_absent (compact_key k) _ t absent;
  }

  pub one_run :
      (fuel : ℕ)
      → get (compact_key k) t ≡ none
      → compact_from (suc fuel) old k t ≡ compact_from fuel old (first l) one
  unfolding one
  one_run fuel absent =
      from_step old fuel k (compact_key (first l)) t (record { count = c; next = first l })
        (ne_of_lt k invalid (lt-invalid k c l s)) ln.0
        (next_apart old (compact_key k) (first l) apart)
      ∙ ap (compact_from fuel old (first l))
          (merge_new t (compact_key k) (compact_key (first l)) c absent)

-- Two rounds, where the next key merges with this one.
module _ (old : Table) (k : SketchHashKey) (c : ℕ) (j : SketchHashKey) (d : ℕ) (l : Buckets)
    (t : Table) (ln : IsLinked old ((k, c) ∷ (j, d) ∷ l)) (s : IsSorted ((k, c) ∷ (j, d) ∷ l))
    (same : compact_key k ≡ compact_key j) where
  after_one : SketchHashEntry
  after_one = record { count = u64_add 0 c; next = compact_key (first l) }

  after_two : SketchHashEntry
  after_two = record { count = u64_add (u64_add 0 c) d; next = compact_key (first l) }

  pub two : Table
  two = put (compact_key k) after_two (put (compact_key k) after_one t)

  outer_apart : Lt (compact_key k) (compact_key (first l))
  outer_apart = compact_key_apart k j (first l) s.0 s.2.0 (first-IsInRange l s.2.2) s.1 s.2.1

  pub two-Round :
      get (compact_key k) t ≡ none
      → Round (compact_key k) (u64_add (u64_add 0 c) d) ((k, c) ∷ (j, d) ∷ l) l t two
  unfolding two after_two after_one
  two-Round absent = record {
    form = compacted_merged k c j d l s same;
    sorted = s.2.2;
    below = rw (first-compacted l s.2.2) outer_apart;
    new = rw (first-compacted l s.2.2) (get-put_self (compact_key k) _ _);
    same = λ q h. get-put_ne (compact_key k) q _ _ h ∙ get-put_ne (compact_key k) q _ t h;
    long =
        length-put_present (compact_key k) after_two after_one _
          (get-put_self (compact_key k) after_one t)
        ∙ length-put_absent (compact_key k) after_one t absent;
  }

  second_round :
      (fuel : ℕ)
      → compact_from (suc fuel) old j (put (compact_key k) after_one t)
        ≡ compact_from fuel old (first l) two
  unfolding two after_two after_one
  second_round fuel =
      let u = put (compact_key k) after_one t in
      let found : get (compact_key j) u ≡ some after_one =
        ap (λ x. get x u) (sym same) ∙ get-put_self (compact_key k) after_one t in
      from_step old fuel j (compact_key (first l)) u (record { count = d; next = first l })
        (ne_of_lt j invalid (lt-invalid j d l s.2)) ln.1.0
        (next_apart old (compact_key j) (first l) (rw same at outer_apart))
      ∙ ap (compact_from fuel old (first l)) (
          merge_old u (compact_key j) (compact_key (first l)) d after_one found
          ∙ ap (λ x. put x after_two u) (sym same))

  pub two_run :
      (fuel : ℕ)
      → get (compact_key k) t ≡ none
      → compact_from (suc (suc fuel)) old k t ≡ compact_from fuel old (first l) two
  unfolding after_one
  two_run fuel absent =
      from_step old (suc fuel) k (compact_key (first l)) t (record { count = c; next = j })
        (ne_of_lt k invalid (lt-invalid k c ((j, d) ∷ l) s)) ln.0
        (next_merged old (compact_key k) j (record { count = d; next = first l }) same ln.1.0)
      ∙ ap (compact_from (suc fuel) old j)
          (merge_new t (compact_key k) (compact_key (first l)) c absent)
      ∙ second_round fuel
