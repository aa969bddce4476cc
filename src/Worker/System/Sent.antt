-- ===== src/Worker/System/Sent.antt =====
-- src/worker.rs with src/aggregator/striped_map.rs and src/export/statsd.rs: what the threads
-- record, as a receiver of the datagrams reads it.
use chalk_metrics.Aggregator.{FlushedMetric, StripedAggMap}
use chalk_metrics.Aggregator.Counts.{pending}
use chalk_metrics.Aggregator.Flushing.{flush-IsFlushed}
use chalk_metrics.Aggregator.History.{run_call, AreSorted}
use chalk_metrics.Aggregator.History.Runs.{IsStep, run_call-IsStep}
use chalk_metrics.Aggregator.Invariant.{IsMap}
use chalk_metrics.Deps.{Channel, HashTable, IsHashTable}
use chalk_metrics.Export.Serving.{serve_all}
use chalk_metrics.Export.Serving.Read.{
  IsReadable, IsReceived, calls-counts_read, serve_all-IsReceived,
}
use chalk_metrics.Export.Statsd.{StatsdExporter, Wire, udp}
use chalk_metrics.Export.Statsd.Counts.{counts_read}
use chalk_metrics.Export.Statsd.Samples.{IsDisplayed, IsWritable}
use chalk_metrics.Export.Statsd.Udp.{TakesAll}
use chalk_metrics.Float.{Float, IsFloat}
use chalk_metrics.Prelude.{
  ℕ, ◌≤◌, ◌≡◌, refl, sym, ap, ◌∙◌, Bool, true, List, [], ◌∷◌, none, some, All, All-append, ◌>>=◌,
  Returns, Returns-both, subst,
}
use chalk_metrics.Prelude.Int.{ℤ, pos, i64_add, IsI64}
use chalk_metrics.Prelude.Int.Residues.{i64_add_comm, i64_add-zero}
use chalk_metrics.Worker.{drop_receiver, Call, Exporter, WorkerState, export, round, shutdown, work}
use chalk_metrics.Worker.System.{
  Step, records, wakes, run_step, run_steps, IsRecording, HasRoomForStep, NeverGrows, StepAgrees,
  recorded_counts,
}
use chalk_metrics.Worker.System.Balance.{received, received-IsI64, AreBalanced}
use chalk_metrics.Worker.System.Conservation.{pending-IsI64, recording_tags, run_steps-delivers}
use chalk_metrics.Worker.System.Readable.{
  IsReadableMap, IsReadableCall, IsFlushed-AreReadable, run_call-IsReadableMap,
}
use chalk_metrics.Worker.System.Rounds.{exported_to, round_lem}

module _ ⦃fl : Float⦄ ⦃ht : HashTable⦄ ⦃ch : Channel⦄ where
  open fl use {F}

  -- All calls that the exporters have had can be read back.
  abbrev AreReadable : List (Exporter F) → Type 0
  AreReadable es = All (λ (e : Exporter F). All IsReadable e.calls) es

  abbrev pub IsReadableStep : Step → Type 0
  IsReadableStep (records c) = IsReadableCall c
  IsReadableStep wakes = Unit {0}

  called-AreReadable :
      (metrics : List (FlushedMetric F)) (es : List (Exporter F))
      → IsReadable (export metrics)
      → AreReadable es
      → AreReadable (exported_to metrics es)
  called-AreReadable [] es h k = k
  called-AreReadable (x ∷ metrics) [] h k = tt
  called-AreReadable (x ∷ metrics) (e ∷ es) h k = (
    All-append IsReadable e.calls (export (x ∷ metrics) ∷ []) k.0 (h, tt),
    called-AreReadable (x ∷ metrics) es h k.1,
  )

  record IsReadableSystem (w : WorkerState) : Type 0 where
    in_order : IsMap w.aggregator
    quiet : w.aggregator.raw_sender ≡ none
    kept : IsReadableMap w.aggregator
    sent : AreReadable w.exporters

  module _ (law : IsFloat fl) (lawful : IsHashTable ht) (fuel : ℕ) (f : 65 ≤ fuel) where
    round-IsReadableSystem :
        (w : WorkerState) → IsReadableSystem w → Returns (round fuel w) IsReadableSystem
    round-IsReadableSystem w h =
        let ((metrics, m), run, fd) = flush-IsFlushed lawful w.aggregator h.in_order in
        let still : m.raw_sender ≡ none = fd.raw_sender ∙ h.quiet in
        let (r, go, (same, sent)) = round_lem fuel w metrics m run still in
        let (readable, kept) =
          IsFlushed-AreReadable lawful w.aggregator metrics m h.in_order h.kept fd in
        (
          r,
          go,
          record {
            in_order = subst IsMap (sym same) fd.in_order;
            quiet = ap (λ (x : StripedAggMap). x.raw_sender) same ∙ still;
            kept = subst IsReadableMap (sym same) kept;
            sent =
                subst AreReadable (sym sent)
                  (called-AreReadable metrics w.exporters readable h.sent);
          },
        )

    step-IsReadableSystem :
        (w : WorkerState) (s : Step)
        → IsReadableSystem w
        → IsRecording s
        → HasRoomForStep w s
        → IsReadableStep s
        → Returns (run_step fuel w s) IsReadableSystem
    unfolding run_step
    step-IsReadableSystem w wakes h t room own = round-IsReadableSystem w h
    step-IsReadableSystem w (records c) h t room own =
        let tags = recording_tags c t in
        let (r, run, (step, kept)) =
          Returns-both (run_call fuel w.aggregator c) (λ r. IsStep w.aggregator c r.0 r.1)
            (λ r. IsReadableMap r.1)
            (run_call-IsStep law lawful fuel f w.aggregator c h.in_order h.quiet tags room)
            (run_call-IsReadableMap lawful law fuel w.aggregator c f h.in_order h.quiet tags room
              h.kept own) in
        (
          record w { aggregator = r.1 },
          rw run,
          record {
            in_order = step.in_order;
            quiet = step.raw_sender ∙ h.quiet;
            kept = kept;
            sent = h.sent;
          },
        )

    run_steps-IsReadableSystem :
        (w : WorkerState) (steps : List Step)
        → IsReadableSystem w
        → All IsRecording steps
        → NeverGrows fuel w steps
        → All IsReadableStep steps
        → Returns (run_steps fuel w steps) IsReadableSystem
    unfolding run_steps
    run_steps-IsReadableSystem w [] h t g own = (w, refl, h)
    run_steps-IsReadableSystem w (s ∷ steps) h t g own =
        let (w', run, first) = step-IsReadableSystem w s h t.0 g.0 own.0 in
        let (r, run', rest) = run_steps-IsReadableSystem w' steps first t.1 (g.1 w' run) own.1 in
        (r, rw run run', rest)

    shut_down-AreReadable :
        (w : WorkerState) (steps : List Step)
        → IsReadableSystem w
        → All IsRecording steps
        → NeverGrows fuel w steps
        → All IsReadableStep steps
        → Returns
            (run_steps fuel w steps >>= work fuel (shutdown ∷ []))
            (λ r. AreReadable r.1.exporters)
    unfolding work
    shut_down-AreReadable w steps h t g own =
        let (w', run, before) = run_steps-IsReadableSystem w steps h t g own in
        let (r, run', last) = round-IsReadableSystem w' before in
        ((true, drop_receiver r), rw run (rw run'), last.sent)

  -- The datagrams are read as the samples of the calls, with this sum of the counts.
  abbrev pub IsRead : StatsdExporter F → List (Call F) → Wire → Wire → ℤ → Type 0
  IsRead e calls w r total = (s : IsReceived e calls w r) × (counts_read s.samples ≡ some total)

  -- What waited and what was recorded is what a receiver adds up, for each of the exporters.
  IsRead-balance :
      (shown : IsDisplayed) (e : StatsdExporter F) (p d : ℤ) (w : Wire) (es es' : List (Exporter F))
      → IsWritable e
      → w.socket ≡ udp
      → TakesAll w
      → IsI64 p
      → All (λ (x : Exporter F). x.calls ≡ []) es
      → AreBalanced p (pos 0) d es es'
      → AreReadable es'
      → All
          (λ (x : Exporter F).
            Returns (serve_all e x.calls w) (λ r. IsRead e x.calls w r (i64_add d p)))
          es'
  IsRead-balance shown e p d w [] [] writable u k i none_yet b readable = tt
  IsRead-balance shown e p d w [] (x' ∷ es') writable u k i none_yet b readable = absurd b
  IsRead-balance shown e p d w (x ∷ es) [] writable u k i none_yet b readable = absurd b
  IsRead-balance shown e p d w (x ∷ es) (x' ∷ es') writable u k i none_yet b readable =
      let total : received x'.calls ≡ i64_add d p =
        sym (i64_add-zero (received x'.calls) (received-IsI64 x'.calls))
        ∙ i64_add_comm (pos 0) (received x'.calls)
        ∙ b.0
        ∙ ap (λ l. i64_add d (i64_add (received l) p)) none_yet.0
        ∙ ap (i64_add d) (i64_add-zero p i) in
      let (r, run, s) = serve_all-IsReceived shown e writable x'.calls w u k readable.0 in
      let counts : counts_read s.samples ≡ some (i64_add d p) =
        calls-counts_read e x'.calls s.samples readable.0 s.of_calls ∙ ap some total in
      (
        (r, run, (s, counts)),
        IsRead-balance shown e p d w es es' writable u k i none_yet.1 b.1 readable.1,
      )

  -- With a lawful float and hash table, 65 rounds of fuel, a map in order without a sender of raw
  -- points, exporters that have had no call, tables that never grow while they have entries, and
  -- hashes that each hold either counts or other kinds; with tags that are made without a panic,
  -- quantiles between 0 and 1, and texts of the map, of the recordings and of the StatsD exporter
  -- that can be read back in a datagram: threads record and the worker wakes up in any order, and
  -- then the worker is shut down. This neither panics nor hangs. If any of the worker's exporters
  -- is the StatsD exporter over UDP, where the operating system takes every datagram, then serving
  -- its calls returns, and a receiver that reads all the datagrams gets the samples of all calls,
  -- in their order, and in their counts, modulo 2 ^ 64, the sum of the recorded deltas and the
  -- counts that waited in the map.
  pub run_steps-IsRead :
      (law : IsFloat fl) (lawful : IsHashTable ht) (fuel : ℕ) (f : 65 ≤ fuel) (counted : ℕ → Bool)
      (shown : IsDisplayed) (e : StatsdExporter F) (writable : IsWritable e) (wire : Wire)
      (w : WorkerState) (steps : List Step)
      → wire.socket ≡ udp
      → TakesAll wire
      → IsMap w.aggregator
      → w.aggregator.raw_sender ≡ none
      → IsReadableMap w.aggregator
      → All (λ (x : Exporter F). x.calls ≡ []) w.exporters
      → AreSorted counted w.aggregator
      → All IsRecording steps
      → NeverGrows fuel w steps
      → All (StepAgrees counted) steps
      → All IsReadableStep steps
      → Returns (run_steps fuel w steps >>= work fuel (shutdown ∷ [])) λ r.
        All
          (λ (x : Exporter F).
            Returns
              (serve_all e x.calls wire)
              λ t. IsRead e x.calls wire t (i64_add (recorded_counts steps) (pending w.aggregator)))
          r.1.exporters
  run_steps-IsRead law lawful fuel f counted shown e writable wire w steps u k inv quiet kept
        none_yet sorted t g a own =
      let h : IsReadableSystem w = record {
        in_order = inv;
        quiet = quiet;
        kept = kept;
        sent = nothing w.exporters none_yet;
      } in
      let (r, run, ((_, _, balanced), last)) =
        Returns-both (run_steps fuel w steps >>= work fuel (shutdown ∷ []))
          (λ r.
            (r.0 ≡ true)
            × (pending r.1.aggregator ≡ pos 0)
            × AreBalanced (pending w.aggregator) (pos 0) (recorded_counts steps) w.exporters
                r.1.exporters)
          (λ r. AreReadable r.1.exporters)
          (run_steps-delivers law lawful fuel f counted w steps inv quiet sorted t g a)
          (shut_down-AreReadable law lawful fuel f w steps h t g own) in
      (
        r,
        run,
        IsRead-balance shown e (pending w.aggregator) (recorded_counts steps) wire w.exporters
            r.1.exporters writable u k (pending-IsI64 w.aggregator) none_yet balanced last,
      )
    where
      nothing :
          (es : List (Exporter F)) → All (λ (x : Exporter F). x.calls ≡ []) es → AreReadable es
      nothing [] h = tt
      nothing (x ∷ es) h = (subst (All IsReadable) (sym h.0) tt, nothing es h.1)
