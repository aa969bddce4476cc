-- ===== src/Lib.antt =====
-- chalk-metrics: a metrics client that records counts, gauges and histograms without blocking, and
-- a worker thread that flushes them to exporters.
--
-- The parts and how they interact. The macros of chalk-metrics-macros/src/lib.rs expand a
-- definition of metrics to structs whose `record` calls the recording functions of src/client.rs.
-- These find the global client and record in its `StripedAggMap` (src/aggregator/striped_map.rs):
-- 64 locked hash maps from combined hashes to slots. A slot is a count (count.rs), a gauge
-- (gauge.rs) or a histogram (histogram.rs) over a `UDDSketch` (sketch.rs). The worker
-- (src/worker.rs) flushes the map at every tick and at shutdown, drains the channel of raw points,
-- and hands both to the exporters: DogStatsD datagrams (src/export/statsd.rs) and the Prometheus
-- text (src/export/prometheus.rs).
--
-- Which file models which part:
-- - Sketch/Key: `SketchHashKey`, its order and `compact_key`. Sketch/Links: `SketchHashMap` as the
--   code keeps it, an association list for the `HashMap` and keys for the links, with `entry`,
--   `increment`, `iter` and `compact`. Sketch/Links/Represents says when such a map represents a
--   sorted list of buckets, and the children prove the operations against that list.
-- - Sketch/Udd: `UDDSketch`. The children are about the loop of compactions (Shrink), `add_value`
--   (Values), `estimate_quantile` (Quantile) and `merge_sketch` (Merge); Getters has what a sketch
--   shows of itself. History and Ranks see a sketch as a tally of keys, which forgets their order:
--   Sketch/Links/Tallied and Counted.
-- - Slots: the three slots. A call on an atomic is one step, so that threads are a list of calls.
-- - Aggregator: `StripedAggMap` and the types of src/export/mod.rs. Tables, Lookup, Recording,
--   Histograms and Collisions are about the entry of every key, Invariant, Enumeration and Flushing
--   about the map as a whole, and Counts, Drained and History about the counts over a sequence of
--   calls.
-- - Export/Statsd and Export/Prometheus: the exporters, with their builders in Setup. The socket
--   is a record of what was sent, and the operating system's answers are given. Statsd has
--   the datagrams in Batches, a receiver that reads them in Reading, Numbers and Counts, and the
--   reconnection in Reconnection. Export/Serving is how each exporter serves the calls of the
--   worker.
-- - Worker and Client: src/worker.rs and src/client.rs. Worker/System puts the recording threads and
--   the worker together, as one sequence of steps on the map and the channel that they share; Sent
--   and SentPoints go on from the worker's calls to what a receiver reads of the datagrams, where
--   Readable and Legible follow the texts.
-- - Macros: chalk-metrics-macros/src/lib.rs. Syn is the crate `syn` as an interface, Keyword and
--   Parsing have the parsers over it, and Printing has the tokens of an input, which RoundTrip
--   parses. Macros.antt, Tags, Recording and Python have what the generated code computes, and
--   Expansion the macros as a whole. Exported follows a recording from a generated struct to a
--   flush. Generated: the invocations of the macros in src/generated.rs.
-- - Float: `f64` as an interface, with the laws of the standard library that a theorem takes as a
--   hypothesis. Deps: hashbrown's map and tokio's channel as interfaces. Tests/Standins and
--   Tests/Tokens are concrete instances of these interfaces and of `syn`, which obey the laws.
-- - Prelude: numbers, texts, outcomes and the lemmas that the parts share. Tests: the theorems at
--   concrete inputs.
--
-- Numbers. A `u64` and an `i64` wrap as the release build of the code does: `u64_add` and
-- `i64_add` of Prelude/Int. A panic and a run that goes on for too long are outcomes, `panic` and
-- `out_of_fuel`.
--
-- Fuel. The loops along the links of a `SketchHashMap` get one round more than the map has
-- entries, which is enough where the map represents a sorted list, since they visit each entry
-- once. The loop of compactions needs at most 64 rounds, since each round halves the numbers of
-- the keys, which fit 64 bits. The drain of the channel needs one round more than there are
-- points. A loop of a parser needs one round more than there are items, and hands what is left to
-- the loops inside it.
--
-- Third-party code. hashbrown places an entry by the hash that it is given, which is the key itself
-- here, but where a table has to make room it places the entries that are there by the hashes of
-- its own hasher, and the code's look-ups by the key can then miss them. So the laws of Deps say
-- what a look-up finds as long as no table makes room while it has entries (`HasRoom`), and the
-- theorems on the map take this as a hypothesis: `HasRoomFor` for one recording, `NeverGrows` for
-- whole runs. A channel without a receiver refuses every point. The operating system may refuse a
-- datagram, which is then lost (`takes` of `Wire`); a connection is named by the inode that the
-- path showed when it was made.
--
-- Not modelled: the threads and the runtime beyond the order of their steps, the real time of the
-- timer, what a look-up finds in a table that has grown with entries in it, and the quoting of
-- tokens by the macros (the model has the values that the quoted code computes). The time is a list
-- of events, and a lock makes a visit of a stripe one step.
pub mod Prelude
pub mod Float
pub mod Sketch
pub mod Slots
pub mod Deps
pub mod Aggregator
pub mod Export
pub mod Worker
pub mod Client
pub mod Macros
pub mod Generated
pub mod Tests
