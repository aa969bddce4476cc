-- ===== src/Export/Statsd/Setup.antt =====
-- src/export/statsd.rs: `StatsdExporterBuilder`. What the operating system answers to the calls that
-- make a socket is an argument.
use chalk_metrics.Export.Statsd.{
  HistogramExportMode, percentiles, Socket, udp, uds, StatsdExporter, Observation, inode_or_zero,
}
use chalk_metrics.Prelude.{ℕ, Bool, ◌&&◌, List, [], ◌∷◌, ◌++◌, Option, none, some, if◌then◌else◌}
use chalk_metrics.Prelude.Text.{Str}

pub data StatsdTarget : Type 0 where
  udp_address : Str → StatsdTarget
  uds_path : Str → StatsdTarget

pub record StatsdExporterBuilder (F : Type 0) : Type 0 where
  pub target : StatsdTarget
  pub namespace : Option Str
  pub default_tags : List (Str × Str)
  pub histogram_mode : HistogramExportMode F
  pub max_buffer_size : ℕ

-- Whether `bind`, `connect` and `set_nonblocking` of a UDP socket succeed.
pub record UdpAnswers : Type 0 where
  pub binds : Bool
  pub connects : Bool
  pub sets_nonblocking : Bool

-- `connect_uds(path).ok()` with `get_inode(path).unwrap_or(0)`
unfoldable pub open_uds : Observation → Socket
open_uds o =
    let inode = inode_or_zero o.inode in uds (if o.connects then some inode else none) inode

unfoldable pub open_socket : StatsdTarget → UdpAnswers → Observation → Option Socket
unfolding open_uds
open_socket (udp_address address) answers o =
    if answers.binds && answers.connects && answers.sets_nonblocking then some udp else none
open_socket (uds_path path) answers o = some (open_uds o)

module _ {F : Type 0} where
  -- The default percentiles 0.5, 0.9, 0.95 and 0.99 are given.
  unfoldable pub to_udp : List F → Str → StatsdExporterBuilder F
  to_udp default_percentiles address = record {
    target = udp_address address;
    namespace = none;
    default_tags = [];
    histogram_mode = percentiles default_percentiles;
    max_buffer_size = 1432;
  }

  unfoldable pub to_uds : List F → Str → StatsdExporterBuilder F
  to_uds default_percentiles path = record {
    target = uds_path path;
    namespace = none;
    default_tags = [];
    histogram_mode = percentiles default_percentiles;
    max_buffer_size = 8192;
  }

  unfoldable pub with_namespace : StatsdExporterBuilder F → Str → StatsdExporterBuilder F
  with_namespace b ns = record b { namespace = some ns }

  unfoldable pub default_tag : StatsdExporterBuilder F → Str → Str → StatsdExporterBuilder F
  default_tag b key value = record b { default_tags = b.default_tags ++ (key, value) ∷ [] }

  unfoldable pub with_histogram_mode :
      StatsdExporterBuilder F → HistogramExportMode F → StatsdExporterBuilder F
  with_histogram_mode b mode = record b { histogram_mode = mode }

  unfoldable pub with_max_buffer_size : StatsdExporterBuilder F → ℕ → StatsdExporterBuilder F
  with_max_buffer_size b size = record b { max_buffer_size = size }

  -- An error is `none`. A socket for a path is made even where the connection fails.
  unfoldable pub build :
      StatsdExporterBuilder F → UdpAnswers → Observation → Option (Socket × StatsdExporter F)
  build b answers o = elim (open_socket b.target answers o) [
    | none ↦ none
    | some socket ↦ some (
      socket,
      record {
        namespace = b.namespace;
        default_tags = b.default_tags;
        histogram_mode = b.histogram_mode;
        max_buffer_size = b.max_buffer_size;
      },
    )
  ]
