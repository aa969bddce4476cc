-- ===== src/Aggregator/Drained.antt =====
-- src/aggregator/striped_map.rs: the sum of the counts that a flush exports.
use chalk_metrics.Aggregator.{AggKey, AggSlot, FlushedValue, FlushedMetric, StripedAggMap, Entry}
use chalk_metrics.Aggregator.Counts.{count_of, counts, pending, counts-IsI64, counts-ext}
use chalk_metrics.Aggregator.Enumeration.{All-get, all_entries}
use chalk_metrics.Aggregator.Flushing.{
  exported, all_exported, gauge_alone, all_entries-Enumerates, IsFlushed,
}
use chalk_metrics.Aggregator.Invariant.{IsMap}
use chalk_metrics.Aggregator.Lookup.{entry_of}
use chalk_metrics.Deps.{Channel, HashTable, IsHashTable}
use chalk_metrics.Float.{Float}
use chalk_metrics.Prelude.{
  ℕ, ◌≡◌, refl, sym, ap, ◌∙◌, List, [], ◌∷◌, ◌++◌, Option, some, none, inl, inr, Bool-cases, ◌==◌,
  nat_eq, ltb, arith, All,
}
use chalk_metrics.Prelude.Int.{ℤ, pos, i64_add, IsI64, i64_add-IsI64}
use chalk_metrics.Prelude.Int.Residues.{i64_add_assoc, i64_add-zero}
use chalk_metrics.Slots.Gauge.{unset}

module _ ⦃fl : Float⦄ ⦃ht : HashTable⦄ ⦃ch : Channel⦄ where
  open fl use {F}

  abbrev pub count_in : FlushedValue F → ℤ
  count_in (FlushedValue.count v) = v
  count_in (FlushedValue.gauge v) = pos 0
  count_in (FlushedValue.histogram v) = pos 0

  -- The sum of the exported counts.
  abbrev pub exported_counts : List (FlushedMetric F) → ℤ
  exported_counts [] = pos 0
  exported_counts (x ∷ l) = i64_add (count_in x.value) (exported_counts l)

  pub exported_counts-IsI64 : (l : List (FlushedMetric F)) → IsI64 (exported_counts l)
  exported_counts-IsI64 [] = omega arith
  exported_counts-IsI64 (x ∷ l) = i64_add-IsI64 (count_in x.value) (exported_counts l)

  pub exported_counts-append :
      (a b : List (FlushedMetric F))
      → exported_counts (a ++ b) ≡ i64_add (exported_counts a) (exported_counts b)
  exported_counts-append [] b = sym (i64_add-zero (exported_counts b) (exported_counts-IsI64 b))
  exported_counts-append (x ∷ a) b =
      ap (i64_add (count_in x.value)) (exported_counts-append a b)
      ∙ sym (i64_add_assoc (count_in x.value) (exported_counts a) (exported_counts b))

  exported-count_of :
      (e : Entry) (rest : ℤ)
      → IsI64 rest
      → i64_add (exported_counts (exported e)) rest ≡ i64_add (count_of e) rest
  unfolding i64_add
  exported-count_of (k, AggSlot.count s) rest h =
      i64_add_assoc s.value (pos 0) rest ∙ ap (i64_add s.value) (i64_add-zero rest h)
  exported-count_of (k, AggSlot.gauge s) rest h = elim (Bool-cases (s.bits == unset)) [
    | inl e ↦ rw e
    | inr e ↦ rw e
  ]
  exported-count_of (k, AggSlot.histogram s) rest h =
      elim (Bool-cases (ltb 0 s.sketch.num_values)) [ inl e ↦ rw e | inr e ↦ rw e ]

  all_exported-counts : (l : List (ℕ × Entry)) → exported_counts (all_exported l) ≡ counts l
  all_exported-counts [] = refl
  all_exported-counts ((h, e) ∷ l) =
      exported_counts-append (exported e) (all_exported l)
      ∙ ap (i64_add (exported_counts (exported e))) (all_exported-counts l)
      ∙ exported-count_of e (counts l) (counts-IsI64 l)

  counts-zero :
      (l : List (ℕ × Entry)) → All (λ (e : ℕ × Entry). count_of e.1 ≡ pos 0) l → counts l ≡ pos 0
  unfolding i64_add
  counts-zero [] h = refl
  counts-zero ((k, e) ∷ l) h = rw h.0 (rw (counts-zero l h.1))

  left-zero :
      (o : Option Entry) (k : AggKey) (s : AggSlot F)
      → gauge_alone o ≡ some (k, s)
      → count_of (k, s) ≡ pos 0
  left-zero none k s h = cc
  left-zero (some (k', AggSlot.gauge g)) k (AggSlot.gauge s) h = refl
  left-zero (some (k', AggSlot.gauge g)) k (AggSlot.histogram s) h = refl
  left-zero (some (k', AggSlot.gauge g)) k (AggSlot.count s) h = cc
  left-zero (some (k', AggSlot.count g)) k s h = cc
  left-zero (some (k', AggSlot.histogram g)) k s h = cc

  module _ (law : IsHashTable ht) where
    -- What a flush exports is what was pending, and nothing is pending behind it.
    pub IsFlushed-counts :
        (m : StripedAggMap) (metrics : List (FlushedMetric F)) (r : StripedAggMap)
        → IsMap m
        → IsFlushed law m metrics r
        → (exported_counts metrics ≡ pending m) × (pending r ≡ pos 0)
    IsFlushed-counts m metrics r inv f = (
      ap exported_counts f.exports ∙ all_exported-counts f.entries ∙ same,
      counts-zero (all_entries r.stripes) none_left,
    )
      where
        same : counts f.entries ≡ pending m
        same =
            let n = all_entries-Enumerates law m inv in
            counts-ext f.entries (all_entries m.stripes) f.enumerates.distinct n.distinct
              λ h. f.enumerates.lookup h ∙ sym (n.lookup h)

        none_left : All (λ (e : ℕ × Entry). count_of e.1 ≡ pos 0) (all_entries r.stripes)
        none_left =
            let n = all_entries-Enumerates law r f.in_order in
            All-get (λ e. count_of e ≡ pos 0) (all_entries r.stripes) n.distinct
              λ h (k, s) there.
                left-zero (entry_of m h) k s (sym (f.entry_of_lem h) ∙ sym (n.lookup h) ∙ there)
