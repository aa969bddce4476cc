-- ===== src/Aggregator/History.antt =====
-- src/aggregator/striped_map.rs: whole runs of calls on the map, in the order in which its locks let
-- them through.
pub mod Effects
pub mod Runs
use chalk_metrics.Aggregator.{
  TagsData, AggKey, AggSlot, FlushedMetric, StripedAggMap, Identity, Entry, combined, record_count,
  record_gauge, record_histogram, flush,
}
use chalk_metrics.Aggregator.Counts.{count_of, count_at, pending, pending_put, counts-IsI64, swap}
use chalk_metrics.Aggregator.Drained.{exported_counts, exported_counts-append, IsFlushed-counts}
use chalk_metrics.Aggregator.Enumeration.{all_entries}
use chalk_metrics.Aggregator.Flushing.{gauge_alone, IsFlushed, flush-IsFlushed}
use chalk_metrics.Aggregator.Histograms.{Observed, IsObserved, record_histogram-IsObserved}
use chalk_metrics.Aggregator.Invariant.{IsMap, IsGoodSlot, IsPut-IsMap}
use chalk_metrics.Aggregator.Lookup.{entry_of, HasRoomFor, recorded, IsPut, IsPut-entry_of}
use chalk_metrics.Aggregator.Recording.{
  with_delta, with_value, first_count, first_gauge, record_count-IsPut, record_gauge-IsPut,
}
use chalk_metrics.Deps.{Channel, HashTable, IsHashTable}
use chalk_metrics.Float.{Float, IsFloat}
use chalk_metrics.Prelude.{
  ℕ, ◌≤◌, ◌≡◌, refl, sym, ap, ◌∙◌, List, [], ◌∷◌, ◌++◌, Option, some, none, inl, inr, Option-cases,
  Bool, Bool-cases, false, true, if◌then◌else◌, ◌==◌, nat_eq, nat_beq_iff, arith, All, Outcome, ok,
  ◌>>=◌, Returns,
}
use chalk_metrics.Prelude.Int.{ℤ, pos, i64_add, IsI64}
use chalk_metrics.Prelude.Int.Residues.{i64_add_comm, i64_add_assoc, i64_add-zero}

module _ ⦃fl : Float⦄ ⦃ht : HashTable⦄ ⦃ch : Channel⦄ where
  open fl use {F}

  pub data MapCall : Type 0 where
    counts_by : Identity → ℤ → MapCall
    sets : Identity → F → MapCall
    observes : Identity → F → MapCall
    flushes : MapCall

  -- One call, with what it exports.
  unfoldable pub run_call :
      ℕ → StripedAggMap → MapCall → Outcome (List (FlushedMetric F) × StripedAggMap)
  run_call fuel m (counts_by i delta) = do r ← record_count m i delta; ok ([], r)
  run_call fuel m (sets i value) = do r ← record_gauge m i value; ok ([], r)
  run_call fuel m (observes i value) = do r ← record_histogram fuel m i value; ok ([], r)
  run_call fuel m flushes = flush m

  -- The tags of the call are made without a panic.
  abbrev pub HasTags : MapCall → Type 0
  HasTags (counts_by i delta) = (tags : TagsData) × (i.make_tags ≡ ok tags)
  HasTags (sets i value) = (tags : TagsData) × (i.make_tags ≡ ok tags)
  HasTags (observes i value) = (tags : TagsData) × (i.make_tags ≡ ok tags)
  HasTags flushes = Unit {0}

  -- Where the call puts an entry in, its table has room.
  abbrev pub HasRoomForCall : StripedAggMap → MapCall → Type 0
  HasRoomForCall m (counts_by i delta) = HasRoomFor m (combined i)
  HasRoomForCall m (sets i value) = HasRoomFor m (combined i)
  HasRoomForCall m (observes i value) = HasRoomFor m (combined i)
  HasRoomForCall m flushes = Unit {0}

  -- What a call adds to the counts.
  abbrev pub delta_of : MapCall → ℤ
  delta_of (counts_by i delta) = delta
  delta_of (sets i value) = pos 0
  delta_of (observes i value) = pos 0
  delta_of flushes = pos 0

  abbrev pub is_count : AggSlot F → Bool
  is_count (AggSlot.count s) = true
  is_count (AggSlot.gauge s) = false
  is_count (AggSlot.histogram s) = false

  module _ (counted : ℕ → Bool) where
    -- The call records a count at a hash of counts, or another kind at another hash.
    abbrev pub Agrees : MapCall → Type 0
    Agrees (counts_by i delta) = counted (combined i) ≡ true
    Agrees (sets i value) = counted (combined i) ≡ false
    Agrees (observes i value) = counted (combined i) ≡ false
    Agrees flushes = Unit {0}

    abbrev pub AreSorted : StripedAggMap → Type 0
    AreSorted m =
        (h : ℕ) (k : AggKey) (s : AggSlot F) → entry_of m h ≡ some (k, s) → is_count s ≡ counted h

    pub AreSorted-put :
        (m : StripedAggMap) (c : ℕ) (e : Entry) (r : StripedAggMap)
        → ((h : ℕ) → entry_of r h ≡ (if c == h then some e else entry_of m h))
        → AreSorted m
        → is_count e.1 ≡ counted c
        → AreSorted r
    AreSorted-put m c e r put sorted own h k s there = elim (Bool-cases (c == h)) [
      | inl x ↦
          let same : c ≡ h = (nat_beq_iff c h).0 x in
          let at_own : some e ≡ some (k, s) = (rw x at (sym (put h))) ∙ there in
          let slot : e.1 ≡ s = cc in ap is_count (sym slot) ∙ own ∙ ap counted same
      | inr x ↦ sorted h k s ((rw x at (sym (put h))) ∙ there)
    ]
