-- ===== src/Sketch/Links/Counts.antt =====
-- src/aggregator/sketch.rs: `SketchHashMap::entry` and `increment` against the sorted list.
use chalk_metrics.Prelude.{
  ℕ, suc, ◌≡◌, ==_ne, sym, ap, ◌∙◌, true, false, [], ◌∷◌, ◌==◌, length, Ordering, arith, inl, inr,
  ok, Returns, some, none, Ordering-cases, Bool-cases,
}
use chalk_metrics.Prelude.HashMap.{
  get, put, get-put_self, get-put_ne, length-put_absent, length-put_present,
}
use chalk_metrics.Prelude.Int.{u64_add}
use chalk_metrics.Sketch.Key.{SketchHashKey, invalid, key_eq, partial_cmp, IsInRange, Lt}
use chalk_metrics.Sketch.Key.Order.{cmp_eq, cmp_trans}
use chalk_metrics.Sketch.Links.{SketchHashEntry, SketchHashMap, walk, entry, add_count}
use chalk_metrics.Sketch.Links.AddTo.{
  add_to_lt, add_to_eq, add_to_gt, add_to-IsSorted, has-add_to, length-add_to,
}
use chalk_metrics.Sketch.Links.Walk.{Table, Stops, below-ne, absent-ne, absent-tail, walk-Stops}
use chalk_metrics.Sketch.Links.Represents.{
  Buckets, first, IsSorted, has, add_to, IsLinked, Represents, IsLinked-get, IsLinked-frame,
  lt_irrefl, gt-lt, has-below, ne_of_lt, ne_of_gt, ne_of_gt,
}

first-add_to-has :
    (k : SketchHashKey) (n : ℕ) (l : Buckets)
    → IsSorted l
    → has k l ≡ true
    → first (add_to k n l) ≡ first l
unfolding has
first-add_to-has k n [] s h = cc
first-add_to-has k n ((j, c) ∷ l) s h = elim (Ordering-cases (partial_cmp k j)) [
  | inl lt ↦ cc (has-below k ((j, c) ∷ l) s lt)
  | inr (inl eq) ↦ rw (add_to_eq k n j c l eq)
  | inr (inr gt) ↦ rw (add_to_gt k n j c l (gt-lt k j gt))
]

-- The entry of a listed key takes one more count.
IsLinked-count :
    (m : Table) (k : SketchHashKey) (n : ℕ) (e : SketchHashEntry) (l : Buckets)
    → IsLinked m l
    → IsSorted l
    → has k l ≡ true
    → get k m ≡ some e
    → IsLinked (put k (record e { count = u64_add e.count n }) m) (add_to k n l)
IsLinked-count m k n e [] ln s h g = unfold has in cc
IsLinked-count m k n e ((j, c) ∷ l) ln s h g = elim (Ordering-cases (partial_cmp k j)) [
  | inl lt ↦ cc (has-below k ((j, c) ∷ l) s lt)
  | inr (inl eq) ↦
      let p = cmp_eq k j eq in
      let w : SketchHashEntry = record e { count = u64_add e.count n } in
      let found : some e ≡ some record { count = c; next = first l } =
        sym g ∙ ap (λ x. get x m) p ∙ ln.0 in
      let same : e ≡ record { count = c; next = first l } = cc found in
      rw (add_to_eq k n j c l eq) (
        ap (λ x. get x (put k w m)) (sym p)
            ∙ get-put_self k w m
            ∙ ap (λ x. some (record { count = u64_add x.count n; next = x.next })) same,
        IsLinked-frame m (put k w m) l
            (λ i hi. get-put_ne k i w m (==_ne k i λ q. below-ne j i l s.2 s.1 hi (sym p ∙ q)))
            ln.1,
      )
  | inr (inr gt) ↦
      let below = gt-lt k j gt in
      let rest : has k l ≡ true = unfold has in rw (ne_of_lt j k below) at h in
      rw (add_to_gt k n j c l below) (
        get-put_ne k j _ m (ne_of_gt k j below)
            ∙ ln.0
            ∙ ap (λ x. some (record { count = c; next = x }))
                (sym (first-add_to-has k n l s.2 rest)),
        IsLinked-count m k n e l ln.1 s.2 rest g,
      )
]

not-has-add_to :
    (k : SketchHashKey) (n : ℕ) (j : SketchHashKey) (l : Buckets)
    → has j (add_to k n l) ≡ false
    → ((k == j) ≡ false) × (has j l ≡ false)
not-has-add_to k n j l h = ground (arith, has-add_to k n j l)

first-add_to_high :
    (k : SketchHashKey) (n : ℕ) (l : Buckets)
    → Lt k invalid
    → Lt (first l) k
    → first (add_to k n l) ≡ first l
first-add_to_high k n [] valid high = absurd (lt_irrefl k (cmp_trans k invalid k valid high))
first-add_to_high k n ((j, c) ∷ l) valid high = rw (add_to_gt k n j c l high)

-- Counting at a listed key.
present-Represents :
    (m : SketchHashMap) (l : Buckets) (key : SketchHashKey) (n : ℕ) (e : SketchHashEntry)
    → Represents m l
    → IsInRange key
    → Lt key invalid
    → has key l ≡ true
    → get key m.map ≡ some e
    → Represents
        (record m { map = put key (record e { count = u64_add e.count n }) m.map })
        (add_to key n l)
present-Represents m l key n e rep range valid here g = record {
  head = rep.head ∙ sym (first-add_to-has key n l rep.sorted here);
  linked = IsLinked-count m.map key n e l rep.linked rep.sorted here g;
  sorted = add_to-IsSorted key n l range valid rep.sorted;
  counted =
      length-put_present key _ e m.map g
      ∙ rep.counted
      ∙ sym (rw (length-add_to key n l rep.sorted, here));
  only = λ j h.
      let (apart, gone) = not-has-add_to key n j l h in
      get-put_ne key j _ m.map apart ∙ rep.only j gone;
}

-- A map with the new key linked in.
absent-Represents :
    (m t : SketchHashMap) (l : Buckets) (key : SketchHashKey) (n : ℕ)
    → Represents m l
    → IsInRange key
    → Lt key invalid
    → has key l ≡ false
    → t.head ≡ first (add_to key n l)
    → IsLinked t.map (add_to key n l)
    → length t.map ≡ suc (length m.map)
    → ((j : SketchHashKey) → (key == j) ≡ false → get j m.map ≡ none → get j t.map ≡ none)
    → Represents t (add_to key n l)
absent-Represents m t l key n rep range valid absent h ln long none_left = record {
  head = h;
  linked = ln;
  sorted = add_to-IsSorted key n l range valid rep.sorted;
  counted = long ∙ ap suc rep.counted ∙ sym (rw (length-add_to key n l rep.sorted, absent));
  only = λ j p. ground (arith, has-add_to key n j l, none_left j, rep.only j);
}

-- Linking in a key below the head.
front-Represents :
    (m : SketchHashMap) (l : Buckets) (key : SketchHashKey) (n : ℕ)
    → Represents m l
    → IsInRange key
    → has key l ≡ false
    → Lt key (first l)
    → Lt key invalid
    → Represents
        (record {
          map =
              put key
                (record { count = u64_add 0 n; next = m.head })
                (put key (record { count = 0; next = m.head }) m.map);
          head = key;
        })
        (add_to key n l)
front-Represents m l key n rep range absent low valid =
    let a : SketchHashEntry = record { count = 0; next = m.head } in
    let b : SketchHashEntry = record { count = u64_add 0 n; next = m.head } in
    let t = put key b (put key a m.map) in
    absent-Represents m (record { map = t; head = key }) l key n rep range valid absent
      (ap first (sym (add_to_lt key n l low)))
      (rw (add_to_lt key n l low) (
        get-put_self key b _ ∙ ap (λ x. some (record { count = u64_add 0 n; next = x })) rep.head,
        IsLinked-frame m.map t l
            (λ j h.
              let apart = ==_ne key j (below-ne key j l rep.sorted low h) in
              get-put_ne key j b (put key a m.map) apart ∙ get-put_ne key j a m.map apart)
            rep.linked,
      ))
      (length-put_present key b a _ (get-put_self key a m.map)
        ∙ length-put_absent key a m.map (rep.only key absent))
      (λ j apart none.
        get-put_ne key j b (put key a m.map) apart ∙ get-put_ne key j a m.map apart ∙ none)

-- Linking in a key behind the key `p`, where the walk stopped.
behind-Represents :
    (m : SketchHashMap) (l : Buckets) (key : SketchHashKey) (n : ℕ) (p s : SketchHashKey)
    (e : SketchHashEntry)
    → Represents m l
    → IsInRange key
    → has key l ≡ false
    → Lt key invalid
    → Lt (first l) key
    → Stops m.map key n l (p, s)
    → get p m.map ≡ some e
    → Represents
        (record m {
          map =
              put key
                (record { count = u64_add 0 n; next = s })
                (put key (record { count = 0; next = s }) (put p (record e { next = key }) m.map));
        })
        (add_to key n l)
behind-Represents m l key n p s e rep range absent valid high (here, low, keeps) g =
    let a : SketchHashEntry = record { count = 0; next = s } in
    let b : SketchHashEntry = record { count = u64_add 0 n; next = s } in
    let w : SketchHashEntry = record e { next = key } in
    let u = put p w m.map in
    let t = put key b (put key a u) in
    let outer : (j : SketchHashKey) → (key == j) ≡ false → get j t ≡ get j u =
      λ j h. get-put_ne key j b (put key a u) h ∙ get-put_ne key j a u h in
    let new : get key u ≡ none =
      get-put_ne p key w m.map (ne_of_lt p key low) ∙ rep.only key absent in
    absent-Represents m (record m { map = t }) l key n rep range valid absent
      (rep.head ∙ sym (first-add_to_high key n l valid high))
      (keeps e g t (λ j np nk. outer j nk ∙ get-put_ne p j w m.map np)
        (outer p (ne_of_gt key p low) ∙ get-put_self p w m.map) (get-put_self key b (put key a u)))
      (length-put_present key b a _ (get-put_self key a u)
        ∙ length-put_absent key a u new
        ∙ ap suc (length-put_present p w e m.map g))
      (λ j apart gone.
        let q : (p == j) ≡ false = ==_ne p j (λ same. cc (g, gone, ap (λ x. get x m.map) same)) in
        outer j apart ∙ get-put_ne p j w m.map q ∙ gone)

entry-present :
    (m : SketchHashMap) (key : SketchHashKey) (e : SketchHashEntry)
    → get key m.map ≡ some e
    → entry m key ≡ ok m
unfolding entry
entry-present m key e g = rw (g, entry)

entry-front :
    (m : SketchHashMap) (key : SketchHashKey)
    → get key m.map ≡ none
    → Lt key m.head
    → entry m key
      ≡ ok (record { map = put key (record { count = 0; next = m.head }) m.map; head = key })
unfolding entry
entry-front m key g low = ground arith

entry-behind :
    (m : SketchHashMap) (key p s : SketchHashKey) (e : SketchHashEntry)
    → get key m.map ≡ none
    → partial_cmp key m.head ≡ Ordering.gt
    → walk (suc (length m.map)) m.map key invalid m.head ≡ ok (p, s)
    → get p m.map ≡ some e
    → entry m key
      ≡ ok (record m {
        map = put key (record { count = 0; next = s }) (put p (record e { next = key }) m.map);
      })
unfolding entry
entry-behind m key p s e g high run gp = ground arith

add_count-entry :
    (m r : SketchHashMap) (key : SketchHashKey) (n : ℕ) (e : SketchHashEntry)
    → entry m key ≡ ok r
    → get key r.map ≡ some e
    → add_count m key n
      ≡ ok (record r { map = put key (record e { count = u64_add e.count n }) r.map })
unfolding add_count
add_count-entry m r key n e run g = rw run (rw g)

add_count_absent :
    (m : SketchHashMap) (l : Buckets) (key : SketchHashKey) (n : ℕ)
    → Represents m l
    → IsInRange key
    → Lt key invalid
    → has key l ≡ false
    → Returns (add_count m key n) (λ r. Represents r (add_to key n l))
unfolding walk
add_count_absent m [] key n rep range valid absent = (
  _,
  add_count-entry m _ key n _ (entry-front m key (rep.only key absent) (rw rep.head valid))
      (get-put_self key _ m.map),
  front-Represents m [] key n rep range absent valid valid,
)
add_count_absent m ((j, c) ∷ l) key n rep range valid absent =
    elim (Ordering-cases (partial_cmp key j)) [
      | inl lt ↦ (
        _,
        add_count-entry m _ key n _ (entry-front m key (rep.only key absent) (rw rep.head lt))
            (get-put_self key _ m.map),
        front-Represents m ((j, c) ∷ l) key n rep range absent lt valid,
      )
      | inr (inl eq) ↦ absurd (absent-ne key j c l absent (cmp_eq key j eq))
      | inr (inr gt) ↦
          let high = gt-lt key j gt in
          let ((p, s), run, stops) =
            walk-Stops m.map key n (length m.map) j c l valid (rw rep.counted (omega arith))
              rep.linked rep.sorted high (absent-tail key j c l absent) in
          let (e, g) = IsLinked-get m.map p ((j, c) ∷ l) rep.linked stops.0 in
          let first_step : walk (suc (length m.map)) m.map key invalid m.head ≡ ok (p, s) =
            rw rep.head (rw (gt, walk, rep.linked.0) run) in
          (
            _,
            add_count-entry m _ key n _
                (entry-behind m key p s e (rep.only key absent) (rw rep.head gt) first_step g)
                (get-put_self key _ _),
            behind-Represents m ((j, c) ∷ l) key n p s e rep range absent valid high stops g,
          )
    ]

-- On a map that represents a sorted list of buckets, and at any key but `Invalid` whose number is
-- an `i64`, in the map or not, `add_count` returns, without a panic, a map that represents the
-- list with the count added at the key.
pub add_count-Represents :
    (m : SketchHashMap) (l : Buckets) (key : SketchHashKey) (n : ℕ)
    → Represents m l
    → IsInRange key
    → Lt key invalid
    → Returns (add_count m key n) (λ r. Represents r (add_to key n l))
add_count-Represents m l key n rep range valid = elim (Bool-cases (has key l)) [
  | inl here ↦
      let (e, g) = IsLinked-get m.map key l rep.linked here in
      (
        record m { map = put key (record e { count = u64_add e.count n }) m.map },
        add_count-entry m m key n e (entry-present m key e g) g,
        present-Represents m l key n e rep range valid here g,
      )
  | inr absent ↦ add_count_absent m l key n rep range valid absent
]
