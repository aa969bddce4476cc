-- ===== src/Macros/Exported.antt =====
-- chalk-metrics-macros/src/lib.rs with src/client.rs and src/aggregator/striped_map.rs: from the
-- recording method of a generated struct, by way of the global client, to what a flush exports.
use chalk_metrics.Aggregator.{
  TagsData, AggKey, AggSlot, FlushedValue, FlushedMetric, Identity, Entry, combined, metric_of,
}
use chalk_metrics.Aggregator.Flushing.{all_exported, exported, flush-IsFlushed}
use chalk_metrics.Aggregator.Invariant.{IsMap, IsPut-IsMap}
use chalk_metrics.Aggregator.Lookup.{entry_of, HasRoomFor, recorded, IsPut-entry_of}
use chalk_metrics.Aggregator.Recording.{with_delta, first_count, record_count-IsPut}
use chalk_metrics.Client.{MetricsClient, Process, with_global, record_count_global, flush_client}
use chalk_metrics.Deps.{Channel, HashTable, IsHashTable}
use chalk_metrics.Float.{Float}
use chalk_metrics.Macros.{Field, export_pairs}
use chalk_metrics.Macros.Recording.{MetricValue, identity_of, count_record_value}
use chalk_metrics.Prelude.{
  ℕ, ◌≡◌, refl, sym, ap, ◌∙◌, List, [], ◌∷◌, ◌++◌, some, none, ok, Outcome, Returns, ◌>>=◌, inl,
  inr, Bool-cases, append_assoc, ◌==◌, ==_refl, nat_eq,
}
use chalk_metrics.Prelude.HashMap.{get}
use chalk_metrics.Prelude.Int.{ℤ, pos, i64_add}
use chalk_metrics.Prelude.Text.{Str}
use chalk_metrics.Slots.Count.{CountSlot}

module _ ⦃fl : Float⦄ ⦃ht : HashTable⦄ ⦃ch : Channel⦄ where
  open fl use {F}

  abbrev pub IsAmong : FlushedMetric F → List (FlushedMetric F) → Type 0
  IsAmong x metrics =
      (before : List (FlushedMetric F)) × (after : List (FlushedMetric F)) × (metrics
        ≡ before ++ x ∷ after)

  -- The count of an entry that is in the list is exported.
  exported-IsAmong :
      (h : ℕ) (k : AggKey) (s : CountSlot) (l : List (ℕ × Entry))
      → get h l ≡ some (k, AggSlot.count s)
      → IsAmong (metric_of k (FlushedValue.count s.value)) (all_exported l)
  unfolding get
  exported-IsAmong h k s [] there = cc
  exported-IsAmong h k s ((j, e) ∷ l) there = elim (Bool-cases (j == h)) [
    | inl own ↦
        let same : e ≡ (k, AggSlot.count s) = some_eq (rw own at there) in
        ([], all_exported l, ap (λ x. exported x ++ all_exported l) same)
    | inr other ↦
        let (before, after, split) = exported-IsAmong h k s l (rw other at there) in
        (
          exported e ++ before,
          after,
          ap (λ x. exported e ++ x) split
              ∙ sym (
                  append_assoc (exported e) before
                    (metric_of k (FlushedValue.count s.value) ∷ after)),
        )
  ]
    where
      some_eq : {x y : Entry} → some x ≡ some y → x ≡ y
      some_eq e = cc

  -- A client whose map is in order, with a count under a hash.
  abbrev pub HasCount : ℕ → AggKey → ℤ → Process → Type 0
  HasCount h k n p =
      (c : MetricsClient) × (p.global ≡ some c)
      × IsMap c.aggregator
      × (entry_of c.aggregator h ≡ some (k, AggSlot.count (record { value = n })))

  module _ (lawful : IsHashTable ht) (i : Identity) (tags : TagsData)
      (of_tags : i.make_tags ≡ ok tags) where
    -- The client behind a recording, from the entry that it leaves.
    recorded_global :
        (p : Process) (c : MetricsClient) (delta n : ℤ) (k : AggKey)
        → p.global ≡ some c
        → IsMap c.aggregator
        → HasRoomFor c.aggregator (combined i)
        → recorded
            (with_delta delta)
            (first_count i tags delta)
            (entry_of c.aggregator (combined i))
          ≡ (k, AggSlot.count (record { value = n }))
        → Returns (record_count_global p i delta) (HasCount (combined i) k n)
    unfolding record_count_global with_global
    recorded_global p c delta n k here inv room left =
        let m = c.aggregator in
        let (r, run, put) =
          record_count-IsPut lawful m i tags of_tags inv.striped inv.tables room delta in
        let e = recorded (with_delta delta) (first_count i tags delta) (entry_of m (combined i)) in
        (
          record p { global = some (record c { aggregator = r }) },
          simp (here, run, with_global),
          (
            record c { aggregator = r },
            refl,
            IsPut-IsMap m (combined i) e r inv put (rw left tt),
            IsPut-entry_of m (combined i) e r put (combined i)
                ∙ rw (==_refl (combined i)) (ap some left),
          ),
        )

  -- A flush of the client exports the count.
  flush_client-IsAmong :
      IsHashTable ht
      → (h : ℕ) (k : AggKey) (n : ℤ) (c : MetricsClient) → IsMap c.aggregator
      → entry_of c.aggregator h ≡ some (k, AggSlot.count (record { value = n }))
      → Returns (flush_client c) (λ r. IsAmong (metric_of k (FlushedValue.count n)) r.0)
  unfolding flush_client
  flush_client-IsAmong lawful h k n c inv there =
      let ((metrics, m), run, f) = flush-IsFlushed lawful c.aggregator inv in
      let (before, after, split) =
        exported-IsAmong h k (record { value = n }) f.entries (f.enumerates.lookup h ∙ there) in
      ((metrics, record c { aggregator = m }), rw run, (before, after, f.exports ∙ split))

  -- The sum of some deltas behind a value, with wrap-around.
  abbrev pub total : ℤ → List ℤ → ℤ
  total n [] = n
  total n (d ∷ ds) = total (i64_add n d) ds

  module _ (export_name : List Str → Str) (hash_of : List Field → ℕ) where
    -- `record_value` with each delta in turn.
    abbrev pub record_values : MetricValue → List ℤ → Process → Outcome Process
    record_values v [] p = ok p
    record_values v (d ∷ ds) p = count_record_value export_name hash_of v d p >>= record_values v ds

    -- The key of a value, by its constants and the pairs of its fields.
    abbrev pub key_of : MetricValue → AggKey
    key_of v = record {
      namespace = v.namespace;
      metric_name = v.name;
      tags_data = record { pairs = export_pairs export_name v.tags v.fields };
    }

    abbrev pub hash_in_map : MetricValue → ℕ
    hash_in_map v = combined (identity_of export_name hash_of v)

    module _ (lawful : IsHashTable ht) (v : MetricValue) where
      record_values-HasCount :
          (ds : List ℤ) (n : ℤ) (p : Process)
          → HasCount (hash_in_map v) (key_of v) n p
          → Returns (record_values v ds p) (HasCount (hash_in_map v) (key_of v) (total n ds))
      unfolding count_record_value identity_of
      record_values-HasCount [] n p has = (p, refl, has)
      record_values-HasCount (d ∷ ds) n p (c, here, inv, there) =
          let i = identity_of export_name hash_of v in
          let tags = (key_of v).tags_data in
          let (p', run, has) =
            recorded_global lawful i tags refl p c d (i64_add n d) (key_of v) here inv
              (λ t own absent. cc) (ap (recorded (with_delta d) (first_count i tags d)) there) in
          let (r, run', last) = record_values-HasCount ds (i64_add n d) p' has in
          (r, rw run run', last)

      -- Over a lawful hash table, let the global client's map be in order, with no entry under the
      -- hash of a value of a generated struct, and with room in its table. Recording one or more
      -- deltas by the methods of this value returns, and a flush of the client behind it returns
      -- too, and exports a count: it has the metric's name and namespace, for its tags the pairs
      -- that `export_pairs` makes of the value's fields, and the sum of the deltas with
      -- wrap-around.
      pub record_values-exported :
          (d : ℤ) (ds : List ℤ) (p : Process) (c : MetricsClient)
          → p.global ≡ some c
          → IsMap c.aggregator
          → HasRoomFor c.aggregator (hash_in_map v)
          → entry_of c.aggregator (hash_in_map v) ≡ none
          → Returns (record_values v (d ∷ ds) p) λ r.
            (c' : MetricsClient) × (r.global ≡ some c')
            × Returns (flush_client c') (λ s.
              IsAmong
                (metric_of (key_of v) (FlushedValue.count (total (i64_add (pos 0) d) ds)))
                s.0)
      unfolding count_record_value identity_of
      record_values-exported d ds p c here inv room absent =
          let i = identity_of export_name hash_of v in
          let tags = (key_of v).tags_data in
          let (p', run, has) =
            recorded_global lawful i tags refl p c d (i64_add (pos 0) d) (key_of v) here inv room
              (ap (recorded (with_delta d) (first_count i tags d)) absent) in
          let (r, run', (c', here', inv', there)) =
            record_values-HasCount ds (i64_add (pos 0) d) p' has in
          (
            r,
            rw run run',
            (
              c',
              here',
              flush_client-IsAmong lawful (hash_in_map v) (key_of v) (total (i64_add (pos 0) d) ds)
                  c' inv' there,
            ),
          )
