-- ===== src/Export/Statsd.antt =====
-- src/export/statsd.rs: DogStatsD lines, datagrams, and the socket. The operating system answers
-- by an observation at each send.
pub mod Batches
pub mod Setup
pub mod Reconnection
pub mod Reading
pub mod Numbers
pub mod Udp
pub mod Counts
pub mod Plain
pub mod Samples
pub mod Written
pub mod Datagrams
pub mod Received
use chalk_metrics.Aggregator.{FlushedMetric, FlushedValue, RawDistributionPoint}
use chalk_metrics.Float.{Float}
use chalk_metrics.Prelude.{
  ℕ, ◌+◌, Bool, true, false, not, ◌&&◌, List, [], ◌∷◌, ◌++◌, map, Option, none, some, length,
  if◌then◌else◌, ◌==◌, nat_eq, ltb, Outcome, ok, ◌>>=◌,
}
use chalk_metrics.Prelude.Text.{Str, codes, join, show_u64, show_i64}
use chalk_metrics.Sketch.Udd.{UddSketch, mean, estimate_quantile}

pub data HistogramExportMode (F : Type 0) : Type 0 where
  percentiles : List F → HistogramExportMode F
  distribution : HistogramExportMode F

-- The connection of a datagram socket is named by the inode that it was made to.
pub data Socket : Type 0 where
  udp : Socket
  uds : (socket : Option ℕ) → (last_inode : ℕ) → Socket

pub record StatsdExporter (F : Type 0) : Type 0 where
  pub namespace : Option Str
  pub default_tags : List (Str × Str)
  pub histogram_mode : HistogramExportMode F
  pub max_buffer_size : ℕ

-- What `std::fs::metadata` and `connect` answer.
pub record Observation : Type 0 where
  pub inode : Option ℕ
  pub connects : Bool

-- The socket, the datagrams that the operating system has taken, with their connection, the
-- observations of the path to come, and which of the attempts to send the operating system takes.
pub record Wire : Type 0 where
  pub socket : Socket
  pub sent : List (ℕ × Str)
  pub observations : List Observation
  pub attempts : ℕ
  pub takes : ℕ → Bool

is_empty {ℓ} : {A : Type ℓ} → List A → Bool
is_empty [] = true
is_empty (x ∷ l) = false

pub prefix_of : Option Str → List Str
prefix_of none = []
prefix_of (some ns) = ns ∷ []

abbrev pub tag_text : Str × Str → Str
tag_text (k, v) = k ++ codes ":" ++ v

unfoldable pub format_distribution_line : Str → Str → Str → Str
format_distribution_line name value tags = name ++ codes ":" ++ value ++ codes "|d" ++ tags

-- `get_inode(path).unwrap_or(0)`
abbrev pub inode_or_zero : Option ℕ → ℕ
inode_or_zero none = 0
inode_or_zero (some n) = n

-- A socket that was replaced is connected anew.
unfoldable pub refresh : Observation → Option ℕ → ℕ → Option ℕ × ℕ
refresh o socket last_inode =
    let current = inode_or_zero o.inode in
    if not (current == last_inode) && not (current == 0)
    then (if o.connects then some current else none, current)
    else (socket, last_inode)

-- `let _ = sock.send(bytes)`: without a connection nothing is tried, and a datagram that the
-- operating system does not take is lost.
deliver : Option ℕ → Str → Wire → Wire
deliver none bytes w = w
deliver (some c) bytes w = record w {
  sent = if w.takes w.attempts then w.sent ++ (c, bytes) ∷ [] else w.sent;
  attempts = w.attempts + 1;
}

-- Where no observation is left, the path shows nothing.
send_uds : Option ℕ → ℕ → List Observation → Str → Wire → Wire
unfolding refresh deliver
send_uds socket last_inode [] bytes w =
    deliver socket bytes (record w { socket = uds socket last_inode; observations = [] })
send_uds socket last_inode (o ∷ os) bytes w =
    let (socket', last_inode') = refresh o socket last_inode in
    deliver socket' bytes (record w { socket = uds socket' last_inode'; observations = os })

send_to : Socket → Str → Wire → Wire
unfolding send_uds deliver
send_to udp bytes w = deliver (some 0) bytes w
send_to (uds socket last_inode) bytes w = send_uds socket last_inode w.observations bytes w

-- `send_buffer` never reports an error.
unfoldable pub send_buffer : Str → Wire → Wire
unfolding send_to
send_buffer bytes w = send_to w.socket bytes w

-- The loop of `send_lines` over the buffer, and the send behind it.
unfoldable pub send_loop {ℓ} : {S : Type ℓ} → (Str → S → S) → ℕ → Str → List Str → S → S
unfolding is_empty
send_loop send limit buffer [] w = if is_empty buffer then w else send buffer w
send_loop send limit buffer (line ∷ lines) w =
    let full = not (is_empty buffer) && ltb limit (length buffer + 1 + length line) in
    let w' = if full then send buffer w else w in
    let kept = if full then [] else buffer in
    let begun = if is_empty kept then [] else kept ++ codes "\n" in
    send_loop send limit (begun ++ line) lines w'

-- The buffer is cleared first.
unfoldable pub send_lines {ℓ} : {S : Type ℓ} → (Str → S → S) → ℕ → List Str → S → S
send_lines send limit lines w = send_loop send limit [] lines w

module _ ⦃fl : Float⦄ where
  open fl use {F}

  unfoldable pub full_name : StatsdExporter F → List Str → Str → Str
  unfolding prefix_of
  full_name e namespace metric_name =
      join (codes ".") (prefix_of e.namespace ++ namespace ++ metric_name ∷ [])

  unfoldable pub format_tags : StatsdExporter F → List (Str × Str) → Str
  unfolding is_empty
  format_tags e metric_tags =
      let all_tags = e.default_tags ++ metric_tags in
      if is_empty all_tags then [] else codes "|#" ++ join (codes ",") (map tag_text all_tags)

  -- `(p * 100.0).round() as u32`
  unfoldable pub format_percentile_label : F → Str
  format_percentile_label p = codes "p" ++ show_u64 (fl.to_u32 (fl.round (fl.mul p fl.hundred)))

  unfoldable pub percentile_lines : UddSketch F → Str → Str → List F → Outcome (List Str)
  percentile_lines sketch name tags [] = ok []
  percentile_lines sketch name tags (p ∷ ps) = do
    value ← estimate_quantile sketch p
    rest ← percentile_lines sketch name tags ps
    ok (
        (name
          ++ codes "."
          ++ format_percentile_label p
          ++ codes ":"
          ++ fl.display value
          ++ codes "|g"
          ++ tags)
        ∷ rest)

  pub histogram_lines : HistogramExportMode F → UddSketch F → Str → Str → Outcome (List Str)
  histogram_lines distribution sketch name tags =
      ok (format_distribution_line name (fl.display (mean sketch)) tags ∷ [])
  histogram_lines (percentiles ps) sketch name tags = do
    rest ← percentile_lines sketch name tags ps
    ok (
        (name ++ codes ".count:" ++ show_u64 sketch.num_values ++ codes "|g" ++ tags)
        ∷ (name ++ codes ".avg:" ++ fl.display (mean sketch) ++ codes "|g" ++ tags)
        ∷ rest)

  pub value_lines : StatsdExporter F → FlushedValue F → Str → Str → Outcome (List Str)
  unfolding histogram_lines
  value_lines e (FlushedValue.count value) name tags =
      ok ((name ++ codes ":" ++ show_i64 value ++ codes "|c" ++ tags) ∷ [])
  value_lines e (FlushedValue.gauge value) name tags =
      ok ((name ++ codes ":" ++ fl.display value ++ codes "|g" ++ tags) ∷ [])
  value_lines e (FlushedValue.histogram sketch) name tags =
      histogram_lines e.histogram_mode sketch name tags

  -- The lines of one metric.
  unfoldable pub metric_lines : StatsdExporter F → FlushedMetric F → Outcome (List Str)
  unfolding value_lines
  metric_lines e m =
      value_lines e m.value (full_name e m.namespace m.metric_name.text)
        (format_tags e m.tags.pairs)

  unfoldable pub all_lines : StatsdExporter F → List (FlushedMetric F) → Outcome (List Str)
  all_lines e [] = ok []
  all_lines e (m ∷ ms) = do lines ← metric_lines e m; rest ← all_lines e ms; ok (lines ++ rest)

  unfoldable pub send_metrics : StatsdExporter F → List (FlushedMetric F) → Wire → Outcome Wire
  send_metrics e metrics w = do
    lines ← all_lines e metrics
    ok (send_lines send_buffer e.max_buffer_size lines w)

  unfoldable pub raw_line : StatsdExporter F → RawDistributionPoint F → Str
  raw_line e p =
      format_distribution_line (full_name e p.namespace p.metric_name.text) (fl.display p.value)
        (format_tags e p.tags.pairs)

  unfoldable pub send_raw_points : StatsdExporter F → List (RawDistributionPoint F) → Wire → Wire
  send_raw_points e points w = send_lines send_buffer e.max_buffer_size (map (raw_line e) points) w
