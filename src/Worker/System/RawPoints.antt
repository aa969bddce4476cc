-- ===== src/Worker/System/RawPoints.antt =====
-- src/worker.rs with `aggregate_distr_metrics(false)`: the raw points that reach the exporters.
use chalk_metrics.Aggregator.{TagsData, RawDistributionPoint, StripedAggMap, Identity, combined}
use chalk_metrics.Aggregator.Enumeration.{AreConsistent}
use chalk_metrics.Aggregator.Flushing.{flush-IsFlushed}
use chalk_metrics.Aggregator.Histograms.{point_of, IsSent, record_histogram-IsSent}
use chalk_metrics.Aggregator.History.{run_call, counts_by, sets, observes, flushes}
use chalk_metrics.Aggregator.History.Effects.{count_good, gauge_good}
use chalk_metrics.Aggregator.Invariant.{IsMap, ArePlaced, IsPut-IsMap}
use chalk_metrics.Aggregator.Lookup.{entry_of, recorded}
use chalk_metrics.Aggregator.Recording.{
  with_delta, with_value, first_count, first_gauge, record_count-IsPut, record_gauge-IsPut,
}
use chalk_metrics.Deps.{Channel, HashTable, IsHashTable, IsChannel}
use chalk_metrics.Float.{Float}
use chalk_metrics.Prelude.{
  ℕ, ◌+◌, ◌≤◌, ◌<◌, ◌≡◌, refl, sym, ap, ◌∙◌, true, false, List, [], ◌∷◌, ◌++◌, some, inl, inr,
  length, length-append, append_assoc, append-nil, All, ◌>>=◌, Returns, subst, arith,
}
use chalk_metrics.Worker.{drop_receiver, WorkerState, round, shutdown, work}
use chalk_metrics.Worker.Delivery.{receive_all-drains}
use chalk_metrics.Worker.System.{
  Step, records, wakes, run_step, run_steps, IsRecording, HasRoomForStep, NeverGrows,
}
use chalk_metrics.Worker.System.Points.{HaveGot, got_nothing, got_trans, point_in, recorded_points}
use chalk_metrics.Worker.System.Rounds.{flush_and_export_lem, drain_lem, got_exported, got_drained}

module _ ⦃fl : Float⦄ ⦃ht : HashTable⦄ ⦃ch : Channel⦄ where
  open fl use {F}

  -- Nothing but the sender differs.
  pub sender-IsMap :
      (m r : StripedAggMap)
      → r.stripes ≡ m.stripes
      → r.max_buckets ≡ m.max_buckets
      → r.initial_error ≡ m.initial_error
      → IsMap m
      → IsMap r
  sender-IsMap m r s b e inv =
      let same : (h : ℕ) → entry_of r h ≡ entry_of m h = λ h. rw (s, entry_of) in
      record {
        striped = ap length s ∙ inv.striped;
        tables = subst AreConsistent (sym s) inv.tables;
        placed = subst (ArePlaced 0) (sym s) inv.placed;
        good = λ h k slot there. inv.good h k slot (sym (same h) ∙ there);
        settings = record {
          room = rw b inv.settings.room;
          error_range = rw e inv.settings.error_range;
        };
      }

  -- The worker behind some steps: the points that waited and the new ones have been got by every
  -- exporter, or wait.
  pub record IsServed (q : ch.Queue (RawDistributionPoint F)) (new : List (RawDistributionPoint F))
      (w r : WorkerState) : Type 0 where
    pub in_order : IsMap r.aggregator
    pub queue : ch.Queue (RawDistributionPoint F)
    pub sender : r.aggregator.raw_sender ≡ some queue
    pub capacity : ch.capacity queue ≡ ch.capacity q
    pub alive : ch.is_closed queue ≡ false
    pub got : List (RawDistributionPoint F)
    pub have_got : HaveGot got w.exporters r.exporters
    pub all : got ++ ch.waiting queue ≡ ch.waiting q ++ new

  -- A recording that puts an entry in touches neither the channel nor the exporters.
  recorded-IsServed :
      (w : WorkerState) (q : ch.Queue (RawDistributionPoint F)) (m : StripedAggMap)
      → w.aggregator.raw_sender ≡ some q
      → ch.is_closed q ≡ false
      → m.raw_sender ≡ w.aggregator.raw_sender
      → IsMap m
      → IsServed q [] w (record w { aggregator = m })
  recorded-IsServed w q m loud live same inv = record {
    in_order = inv;
    queue = q;
    sender = same ∙ loud;
    capacity = refl;
    alive = live;
    got = [];
    have_got = got_nothing w.exporters;
    all = sym (append-nil (ch.waiting q));
  }

  module _ (lawful : IsHashTable ht) (law : IsChannel ch) (fuel : ℕ) where
    sent-IsServed :
        (w : WorkerState) (q : ch.Queue (RawDistributionPoint F)) (i : Identity) (tags : TagsData)
        (v : F) (m : StripedAggMap)
        → IsMap w.aggregator
        → ch.is_closed q ≡ false
        → length (ch.waiting q) < ch.capacity q
        → IsSent w.aggregator q (point_of i tags v) m
        → IsServed q (point_of i tags v ∷ []) w (record w { aggregator = m })
    sent-IsServed w q i tags v m inv live room s = elim s.sent [
      | inl (_, _, waits, same, still) ↦ record {
        in_order = sender-IsMap w.aggregator m s.stripes s.max_buckets s.initial_error inv;
        queue = s.queue;
        sender = s.raw_sender;
        capacity = same;
        alive = still;
        got = [];
        have_got = got_nothing w.exporters;
        all = waits;
      }
      | inr (inl closed, _) ↦ let no : true ≡ false = sym closed ∙ live in cc
      | inr (inr full, _) ↦ absurd (omega (arith, room, full))
    ]

    round-IsServed :
        (w : WorkerState) (q : ch.Queue (RawDistributionPoint F))
        → IsMap w.aggregator
        → w.aggregator.raw_sender ≡ some q
        → ch.is_closed q ≡ false
        → length (ch.waiting q) < fuel
        → Returns (round fuel w) (λ r. (s : IsServed q [] w r) × (ch.waiting s.queue ≡ []))
    unfolding round
    round-IsServed w q inv loud live f =
        let ((metrics, m), run, fd) = flush-IsFlushed lawful w.aggregator inv in
        let (w', run', (same, exported)) = flush_and_export_lem w metrics m run in
        let still : w'.aggregator.raw_sender ≡ some q =
          ap (λ (x : StripedAggMap). x.raw_sender) same ∙ fd.raw_sender ∙ loud in
        let ((points, q'), go, (all, left, kept, same_receiver)) =
          receive_all-drains law fuel (ch.waiting q) q refl f in
        let (r, run'', (same', drained)) = drain_lem fuel w' q q' points still go in
        let first =
          subst (HaveGot [] w.exporters) (sym exported) (got_exported metrics w.exporters) in
        let second =
          subst (HaveGot points w'.exporters) (sym drained) (got_drained points w'.exporters) in
        (
          r,
          rw run' run'',
          (
            record {
              in_order = subst IsMap (sym same') (
                  sender-IsMap m (record (w'.aggregator) { raw_sender = some q' })
                    (ap (λ (x : StripedAggMap). x.stripes) same)
                    (ap (λ (x : StripedAggMap). x.max_buckets) same)
                    (ap (λ (x : StripedAggMap). x.initial_error) same) fd.in_order);
              queue = q';
              sender = ap (λ (x : StripedAggMap). x.raw_sender) same';
              capacity = kept;
              alive = same_receiver ∙ live;
              got = points;
              have_got = got_trans [] points w.exporters w'.exporters r.exporters first second;
              all =
                  ap (λ x. points ++ x) left
                  ∙ append-nil points
                  ∙ all
                  ∙ sym (append-nil (ch.waiting q));
            },
            left,
          ),
        )

    pub step-IsServed :
        (w : WorkerState) (q : ch.Queue (RawDistributionPoint F)) (s : Step)
        → IsMap w.aggregator
        → w.aggregator.raw_sender ≡ some q
        → ch.is_closed q ≡ false
        → IsRecording s
        → HasRoomForStep w s
        → length (ch.waiting q) + length (point_in s) ≤ ch.capacity q
        → ch.capacity q < fuel
        → Returns (run_step fuel w s) (IsServed q (point_in s) w)
    unfolding run_step run_call
    step-IsServed w q (records (counts_by i delta)) inv loud live (tags, t) room b f =
        let old = entry_of w.aggregator (combined i) in
        let (m, run, p) =
          record_count-IsPut lawful w.aggregator i tags t inv.striped inv.tables room delta in
        let kept =
          IsPut-IsMap w.aggregator (combined i)
            (recorded (with_delta delta) (first_count i tags delta) old) m inv p
            (count_good i tags delta old (inv.good (combined i))) in
        (record w { aggregator = m }, rw run, recorded-IsServed w q m loud live p.raw_sender kept)
    step-IsServed w q (records (sets i value)) inv loud live (tags, t) room b f =
        let old = entry_of w.aggregator (combined i) in
        let (m, run, p) =
          record_gauge-IsPut lawful w.aggregator i tags t inv.striped inv.tables room value in
        let kept =
          IsPut-IsMap w.aggregator (combined i)
            (recorded (with_value value) (first_gauge i tags value) old) m inv p
            (gauge_good i tags value old (inv.good (combined i))) in
        (record w { aggregator = m }, rw run, recorded-IsServed w q m loud live p.raw_sender kept)
    step-IsServed w q (records (observes i value)) inv loud live (tags, t) room b f =
        let (m, run, s) = record_histogram-IsSent law fuel w.aggregator i tags value q loud t in
        let fits : length (ch.waiting q) < ch.capacity q = omega (arith, rw t at b) in
        (
          record w { aggregator = m },
          rw run,
          rw t (sent-IsServed w q i tags value m inv live fits s),
        )
    step-IsServed w q (records flushes) inv loud live t room b f = absurd t
    step-IsServed w q wakes inv loud live t room b f =
        let (r, run, (s, _)) = round-IsServed w q inv loud live (omega (arith, b, f)) in (r, run, s)

    pub run_steps-IsServed :
        (w : WorkerState) (q : ch.Queue (RawDistributionPoint F)) (steps : List Step)
        → IsMap w.aggregator
        → w.aggregator.raw_sender ≡ some q
        → ch.is_closed q ≡ false
        → All IsRecording steps
        → NeverGrows fuel w steps
        → length (ch.waiting q) + length (recorded_points steps) ≤ ch.capacity q
        → ch.capacity q < fuel
        → Returns (run_steps fuel w steps) (IsServed q (recorded_points steps) w)
    unfolding run_steps
    run_steps-IsServed w q [] inv loud live t g b f = (
      w,
      refl,
      record {
        in_order = inv;
        queue = q;
        sender = loud;
        capacity = refl;
        alive = live;
        got = [];
        have_got = got_nothing w.exporters;
        all = sym (append-nil (ch.waiting q));
      },
    )
    run_steps-IsServed w q (s ∷ steps) inv loud live t g b f =
        let new = point_in s in
        let later = recorded_points steps in
        let both = length-append new later in
        let (w', run, x) = step-IsServed w q s inv loud live t.0 g.0 (omega (arith, b, both)) f in
        let counted = length-append x.got (ch.waiting x.queue) in
        let added = length-append (ch.waiting q) new in
        let few : length (ch.waiting x.queue) + length later ≤ ch.capacity x.queue =
          omega (arith, b, both, counted, added, ap length x.all, x.capacity) in
        let (r, run', y) =
          run_steps-IsServed w' x.queue steps x.in_order x.sender x.alive t.1 (g.1 w' run) few
            (omega (arith, f, x.capacity)) in
        (
          r,
          rw run run',
          record {
            in_order = y.in_order;
            queue = y.queue;
            sender = y.sender;
            capacity = y.capacity ∙ x.capacity;
            alive = y.alive;
            got = x.got ++ y.got;
            have_got =
                got_trans x.got y.got w.exporters w'.exporters r.exporters x.have_got y.have_got;
            all =
                append_assoc x.got y.got (ch.waiting y.queue)
                ∙ ap (λ l. x.got ++ l) y.all
                ∙ sym (append_assoc x.got (ch.waiting x.queue) later)
                ∙ ap (λ l. l ++ later) x.all
                ∙ append_assoc (ch.waiting q) new later;
          },
        )

    -- Over a lawful hash table and channel, let the map be in order with a sender of raw points
    -- whose receiver is there, let no table grow while it has entries, let the tags be made without
    -- a panic, let the channel have room for the points that wait and those that are recorded, and
    -- let the fuel exceed its capacity: threads record and the worker wakes up in any order, and
    -- then the worker is shut down. This neither panics nor hangs, and ends the worker's loop.
    -- Every exporter, whatever it answered, has got the points that waited and the recorded ones,
    -- each once and in this order.
    pub run_steps-points :
        (w : WorkerState) (q : ch.Queue (RawDistributionPoint F)) (steps : List Step)
        → IsMap w.aggregator
        → w.aggregator.raw_sender ≡ some q
        → ch.is_closed q ≡ false
        → All IsRecording steps
        → NeverGrows fuel w steps
        → length (ch.waiting q) + length (recorded_points steps) ≤ ch.capacity q
        → ch.capacity q < fuel
        → Returns (run_steps fuel w steps >>= work fuel (shutdown ∷ [])) λ r.
          (r.0 ≡ true) × HaveGot (ch.waiting q ++ recorded_points steps) w.exporters r.1.exporters
    unfolding work
    run_steps-points w q steps inv loud live t g b f =
        let (w', run, x) = run_steps-IsServed w q steps inv loud live t g b f in
        let counted = length-append x.got (ch.waiting x.queue) in
        let added = length-append (ch.waiting q) (recorded_points steps) in
        let (r, run', (y, left)) =
          round-IsServed w' x.queue x.in_order x.sender x.alive
            (omega (arith, b, f, counted, added, ap length x.all)) in
        let whole : x.got ++ y.got ≡ ch.waiting q ++ recorded_points steps =
          ap (λ l. x.got ++ l)
            (sym (append-nil y.got)
              ∙ ap (λ l. y.got ++ l) (sym left)
              ∙ y.all
              ∙ append-nil (ch.waiting x.queue))
          ∙ x.all in
        (
          (true, drop_receiver r),
          rw run (rw run'),
          (
            refl,
            subst (λ l. HaveGot l w.exporters r.exporters) whole
                (got_trans x.got y.got w.exporters w'.exporters r.exporters x.have_got y.have_got),
          ),
        )
