-- ===== src/Aggregator/Collisions.antt =====
-- src/aggregator/striped_map.rs, `combine_hash`: metrics that differ in what it does not read.
use chalk_metrics.Aggregator.{
  AggSlot, TagsData, StripedAggMap, Identity, combined, combine_hash, record_count,
}
use chalk_metrics.Aggregator.Lookup.{
  entry_of, IsStriped, HasTables, HasRoomFor, recorded, fresh_entry, IsPut-IsStriped,
  IsPut-HasTables, IsPut-entry_of,
}
use chalk_metrics.Aggregator.Recording.{
  with_delta, first_count, record_count-IsPut, record_count-IsRecorded,
}
use chalk_metrics.Deps.{Channel, HashTable, IsHashTable}
use chalk_metrics.Float.{Float}
use chalk_metrics.Prelude.{
  ℕ, ◌≡◌, sym, ap, ◌∙◌, some, none, inl, inr, Bool-cases, true, false, ==_refl, if◌then◌else◌, ◌==◌,
  nat_eq, ok, ◌>>=◌, Returns,
}
use chalk_metrics.Prelude.Int.{ℤ, pos, i64_add}

module _ ⦃fl : Float⦄ ⦃ht : HashTable⦄ ⦃ch : Channel⦄ where
  open fl use {F}

  -- The namespaces, the tags and the text of the name are not looked at.
  same_hash :
      (i j : Identity)
      → i.metric_name.address ≡ j.metric_name.address
      → i.tags_hash ≡ j.tags_hash
      → combined i ≡ combined j
  unfolding combine_hash
  same_hash i j a t = rw (a, t)

  -- Over a lawful hash table with 64 stripes of consistent tables, let two metrics have names at
  -- one address and equal hashes of their tags, with any namespaces and any tags, and let the map
  -- hold no entry under their hash, and its table have room. Recording a count of the first and
  -- then one of the second returns, and leaves under that hash one count, the sum of both deltas,
  -- with the namespace and the tags of the first; under every other hash nothing has changed.
  pub record_count-joined :
      (law : IsHashTable ht) (m : StripedAggMap) (i j : Identity) (ti tj : TagsData) (d e : ℤ)
      → IsStriped m
      → HasTables m
      → HasRoomFor m (combined i)
      → i.make_tags ≡ ok ti
      → j.make_tags ≡ ok tj
      → i.metric_name.address ≡ j.metric_name.address
      → i.tags_hash ≡ j.tags_hash
      → entry_of m (combined i) ≡ none
      → Returns (record_count m i d >>= λ r. record_count r j e) λ r.
        (h : ℕ)
        → entry_of r h ≡ (
            if combined i == h
            then some (
                fresh_entry i ti (AggSlot.count (record { value = i64_add (i64_add (pos 0) d) e })))
            else entry_of m h)
  record_count-joined law m i j ti tj d e striped tables room of_i of_j address tags absent =
      let own = recorded (with_delta d) (first_count i ti d) (entry_of m (combined i)) in
      let (r, run, p) = record_count-IsPut law m i ti of_i striped tables room d in
      let first = IsPut-entry_of m (combined i) own r p in
      let same : combined j ≡ combined i = sym (same_hash i j address tags) in
      let at_own : entry_of r (combined i) ≡ some (first_count i ti d) =
        first (combined i)
        ∙ rw (==_refl (combined i))
            (ap (λ o. some (recorded (with_delta d) (first_count i ti d) o)) absent) in
      let at_other : entry_of r (combined j) ≡ some (first_count i ti d) = rw same at_own in
      let (r', run', (_, second)) =
        record_count-IsRecorded law r j tj of_j (IsPut-IsStriped m (combined i) own r p striped)
          (IsPut-HasTables m (combined i) own r p tables) (λ t here none_there. cc) e in
      (
        r',
        rw run run',
        λ h. second h ∙ elim (Bool-cases (combined i == h)) [
          | inl x ↦
              let x' : (combined j == h) ≡ true = rw same x in
              rw x'
                (rw x (ap (λ o. some (recorded (with_delta e) (first_count j tj e) o)) at_other))
          | inr x ↦ let x' : (combined j == h) ≡ false = rw same x in rw x' (rw x (first h ∙ rw x))
        ],
      )
