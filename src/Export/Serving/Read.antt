-- ===== src/Export/Serving/Read.antt =====
-- src/export/statsd.rs behind src/worker.rs: what a receiver reads of all the calls of the worker.
use chalk_metrics.Aggregator.Drained.{exported_counts, exported_counts-IsI64}
use chalk_metrics.Deps.{Channel, HashTable}
use chalk_metrics.Export.Serving.{serve_statsd, serve_all}
use chalk_metrics.Export.Statsd.{StatsdExporter, Wire, udp, send_raw_points}
use chalk_metrics.Export.Statsd.Batches.{datagram}
use chalk_metrics.Export.Statsd.Counts.{
  counts_read, counts_read-append, HasCounts, counts_read-exported_counts, points-counts_read,
}
use chalk_metrics.Export.Statsd.Datagrams.{read_datagrams, read_datagrams-append}
use chalk_metrics.Export.Statsd.Reading.{Sample}
use chalk_metrics.Export.Statsd.Received.{send_metrics-read, send_raw_points-read}
use chalk_metrics.Export.Statsd.Samples.{
  IsDisplayed, IsWritable, IsExportable, IsExportablePoint, AreOfMetrics, sample_of_point,
}
use chalk_metrics.Export.Statsd.Udp.{
  TakesAll, sent_more, sent_more-nil, sent_more-append, send_all-udp,
}
use chalk_metrics.Float.{Float}
use chalk_metrics.Prelude.{
  ◌≡◌, refl, sym, ap, ◌∙◌, List, [], ◌∷◌, ◌++◌, map, some, All, subst, Returns,
}
use chalk_metrics.Prelude.Int.{pos, i64_add}
use chalk_metrics.Prelude.Int.Residues.{i64_add_comm, i64_add_assoc, i64_add-zero}
use chalk_metrics.Prelude.Text.{Str}
use chalk_metrics.Worker.{Call, export, export_raw_points}
use chalk_metrics.Worker.System.Balance.{received, received-IsI64}

module _ ⦃fl : Float⦄ ⦃ht : HashTable⦄ ⦃ch : Channel⦄ where
  open fl use {F}

  received_cons :
      (c : Call F) (calls : List (Call F))
      → i64_add (received (c ∷ [])) (received calls) ≡ received (c ∷ calls)
  received_cons (export metrics) calls =
      i64_add_assoc (exported_counts metrics) (pos 0) (received calls)
      ∙ ap (i64_add (exported_counts metrics))
          (i64_add-zero (received calls) (received-IsI64 calls))
  received_cons (export_raw_points points) calls =
      i64_add-zero (received calls) (received-IsI64 calls)

  -- The texts of what is exported can be read back, and the counts are in the range of an `i64`.
  abbrev pub IsReadable : Call F → Type 0
  IsReadable (export metrics) = All IsExportable metrics × HasCounts metrics
  IsReadable (export_raw_points points) = All IsExportablePoint points

  -- The samples of one call, and those of all calls, one after another.
  abbrev pub AreOfCall : StatsdExporter F → Call F → List Sample → Type 0
  AreOfCall e (export metrics) samples = AreOfMetrics e metrics samples
  AreOfCall e (export_raw_points points) samples = samples ≡ map (sample_of_point e) points

  abbrev pub AreOfCalls : StatsdExporter F → List (Call F) → List Sample → Type 0
  AreOfCalls e [] samples = samples ≡ []
  AreOfCalls e (c ∷ calls) samples =
      (first : List Sample) × (rest : List Sample) × (samples ≡ first ++ rest)
      × AreOfCall e c first
      × AreOfCalls e calls rest

  -- The datagrams that have been sent for the calls, with what a receiver reads in them.
  pub record IsReceived (e : StatsdExporter F) (calls : List (Call F)) (w r : Wire) : Type 0 where
    pub datagrams : List Str
    pub samples : List Sample
    pub sent : r ≡ sent_more datagrams w
    pub read : read_datagrams datagrams ≡ some samples
    pub of_calls : AreOfCalls e calls samples

  call-counts_read :
      (e : StatsdExporter F) (c : Call F) (samples : List Sample)
      → IsReadable c
      → AreOfCall e c samples
      → counts_read samples ≡ some (received (c ∷ []))
  call-counts_read e (export metrics) samples (_, i) of =
      counts_read-exported_counts e metrics samples i of
      ∙ ap some (
          sym (
            i64_add_comm (exported_counts metrics) (pos 0)
            ∙ i64_add-zero (exported_counts metrics) (exported_counts-IsI64 metrics)))
  call-counts_read e (export_raw_points points) samples h of =
      ap counts_read of ∙ points-counts_read e points

  -- The counts in the samples of the calls add up to those that the calls have handed over.
  pub calls-counts_read :
      (e : StatsdExporter F) (calls : List (Call F)) (samples : List Sample)
      → All IsReadable calls
      → AreOfCalls e calls samples
      → counts_read samples ≡ some (received calls)
  calls-counts_read e [] samples h of = ap counts_read of
  calls-counts_read e (c ∷ calls) samples h (first, rest, same, a, b) =
      ap counts_read same
      ∙ counts_read-append first rest (received (c ∷ [])) (received calls) (received-IsI64 calls)
          (call-counts_read e c first h.0 a) (calls-counts_read e calls rest h.1 b)
      ∙ ap some (received_cons c calls)

  module _ (shown : IsDisplayed) (e : StatsdExporter F) (writable : IsWritable e) where
    -- The datagrams of one call.
    abbrev IsServed : Call F → Wire → Wire → Type 0
    IsServed c w r =
        (datagrams : List Str) × (samples : List Sample) × (r ≡ sent_more datagrams w)
        × (read_datagrams datagrams ≡ some samples)
        × AreOfCall e c samples

    serve_statsd-IsServed :
        (c : Call F) (w : Wire)
        → w.socket ≡ udp
        → TakesAll w
        → IsReadable c
        → Returns (serve_statsd e c w) (IsServed c w)
    unfolding serve_statsd
    serve_statsd-IsServed (export metrics) w u k (h, i) =
        let (r, run, (gs, samples, sent, _, read, of)) =
          send_metrics-read shown e writable metrics w h in
        (r, run, (map datagram gs, samples, sent ∙ send_all-udp gs w u k, read, of))
    serve_statsd-IsServed (export_raw_points points) w u k h =
        let (gs, sent, _, read) = send_raw_points-read shown e writable points w h in
        (
          send_raw_points e points w,
          refl,
          (
            map datagram gs,
            map (sample_of_point e) points,
            sent ∙ send_all-udp gs w u k,
            read,
            refl,
          ),
        )

    pub serve_all-IsReceived :
        (calls : List (Call F)) (w : Wire)
        → w.socket ≡ udp
        → TakesAll w
        → All IsReadable calls
        → Returns (serve_all e calls w) (IsReceived e calls w)
    unfolding serve_all
    serve_all-IsReceived [] w u k h = (
      w,
      refl,
      record {
        datagrams = [];
        samples = [];
        sent = sym (sent_more-nil w);
        read = refl;
        of_calls = refl;
      },
    )
    serve_all-IsReceived (c ∷ calls) w u k h =
        let (w', run, (ds, first, sent, read, of)) = serve_statsd-IsServed c w u k h.0 in
        let (r, run', rest) =
          serve_all-IsReceived calls w' (ap (λ (x : Wire). x.socket) sent ∙ u)
            (subst TakesAll (sym sent) k) h.1 in
        (
          r,
          rw run run',
          record {
            datagrams = ds ++ rest.datagrams;
            samples = first ++ rest.samples;
            sent =
                rest.sent
                ∙ ap (sent_more rest.datagrams) sent
                ∙ sent_more-append ds rest.datagrams w;
            read = read_datagrams-append ds rest.datagrams first rest.samples read rest.read;
            of_calls = (first, rest.samples, refl, of, rest.of_calls);
          },
        )
