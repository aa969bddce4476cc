-- ===== src/Aggregator/History/Effects.antt =====
-- src/aggregator/striped_map.rs: what each recording does to the kind and to the count of an entry.
use chalk_metrics.Aggregator.{TagsData, AggKey, AggSlot, Identity, Entry}
use chalk_metrics.Aggregator.Counts.{count_of, count_at}
use chalk_metrics.Aggregator.Flushing.{gauge_alone}
use chalk_metrics.Aggregator.Histograms.{Observed}
use chalk_metrics.Aggregator.Invariant.{IsGoodSlot}
use chalk_metrics.Aggregator.Lookup.{recorded}
use chalk_metrics.Aggregator.Recording.{with_delta, with_value, first_count, first_gauge}
use chalk_metrics.Deps.{Channel, HashTable}
use chalk_metrics.Float.{Float}
use chalk_metrics.Prelude.{ℕ, ◌≡◌, refl, Option, some, none, Bool, false, true, nat_eq}
use chalk_metrics.Prelude.Int.{ℤ, pos, i64_add}
use chalk_metrics.Prelude.Int.Residues.{i64_add_comm}
use chalk_metrics.Aggregator.History.{is_count}

module _ ⦃fl : Float⦄ ⦃ht : HashTable⦄ ⦃ch : Channel⦄ where
  open fl use {F}

  -- Of the entry before, what the kind of a recording says: its slot is of that kind.
  abbrev pub OfKind : Bool → Option Entry → Type 0
  OfKind b o = (k : AggKey) (s : AggSlot F) → o ≡ some (k, s) → is_count s ≡ b

  pub count_effect :
      (i : Identity) (tags : TagsData) (d : ℤ) (o : Option Entry)
      → OfKind true o
      → let e = recorded (with_delta d) (first_count i tags d) o in
        (is_count e.1 ≡ true) × (count_of e ≡ i64_add d (count_at o))
  count_effect i tags d none h = (refl, i64_add_comm (pos 0) d)
  count_effect i tags d (some (k, AggSlot.count s)) h = (refl, i64_add_comm s.value d)
  count_effect i tags d (some (k, AggSlot.gauge s)) h = let x = h k (AggSlot.gauge s) refl in cc
  count_effect i tags d (some (k, AggSlot.histogram s)) h =
      let x = h k (AggSlot.histogram s) refl in cc

  pub gauge_effect :
      (i : Identity) (tags : TagsData) (v : F) (o : Option Entry)
      → OfKind false o
      → let e = recorded (with_value v) (first_gauge i tags v) o in
        (is_count e.1 ≡ false) × (count_of e ≡ i64_add (pos 0) (count_at o))
  unfolding i64_add
  gauge_effect i tags v none h = (refl, refl)
  gauge_effect i tags v (some (k, AggSlot.count s)) h = let x = h k (AggSlot.count s) refl in cc
  gauge_effect i tags v (some (k, AggSlot.gauge s)) h = (refl, refl)
  gauge_effect i tags v (some (k, AggSlot.histogram s)) h = (refl, refl)

  pub histogram_effect :
      (i : Identity) (tags : TagsData) (v : F) (o : Option Entry) (e : Entry)
      → Observed i tags v o e
      → OfKind false o
      → (is_count e.1 ≡ false) × (count_of e ≡ i64_add (pos 0) (count_at o))
  unfolding i64_add
  histogram_effect i tags v none e (s, s', g, z, o, p) h = rw p (refl, refl)
  histogram_effect i tags v (some (k, AggSlot.histogram s)) e (s', o, p) h = rw p (refl, refl)
  histogram_effect i tags v (some (k, AggSlot.gauge s)) e p h = rw p (refl, refl)
  histogram_effect i tags v (some (k, AggSlot.count s)) e p h =
      let x = h k (AggSlot.count s) refl in cc

  pub count_good :
      (i : Identity) (tags : TagsData) (d : ℤ) (o : Option Entry)
      → ((k : AggKey) (s : AggSlot F) → o ≡ some (k, s) → IsGoodSlot s)
      → IsGoodSlot (recorded (with_delta d) (first_count i tags d) o).1
  count_good i tags d none h = tt
  count_good i tags d (some (k, AggSlot.count s)) h = tt
  count_good i tags d (some (k, AggSlot.gauge s)) h = tt
  count_good i tags d (some (k, AggSlot.histogram s)) h = h k (AggSlot.histogram s) refl

  pub gauge_good :
      (i : Identity) (tags : TagsData) (v : F) (o : Option Entry)
      → ((k : AggKey) (s : AggSlot F) → o ≡ some (k, s) → IsGoodSlot s)
      → IsGoodSlot (recorded (with_value v) (first_gauge i tags v) o).1
  gauge_good i tags v none h = tt
  gauge_good i tags v (some (k, AggSlot.count s)) h = tt
  gauge_good i tags v (some (k, AggSlot.gauge s)) h = tt
  gauge_good i tags v (some (k, AggSlot.histogram s)) h = h k (AggSlot.histogram s) refl

  pub gauge_alone-sorted :
      (counted : ℕ → Bool) (h : ℕ) (o : Option Entry)
      → ((k : AggKey) (s : AggSlot F) → o ≡ some (k, s) → is_count s ≡ counted h)
      → (k : AggKey) (s : AggSlot F) → gauge_alone o ≡ some (k, s)
      → is_count s ≡ counted h
  gauge_alone-sorted counted h none old k s e = cc
  gauge_alone-sorted counted h (some (k', AggSlot.gauge g)) old k s e = old k s e
  gauge_alone-sorted counted h (some (k', AggSlot.count g)) old k s e = cc
  gauge_alone-sorted counted h (some (k', AggSlot.histogram g)) old k s e = cc
