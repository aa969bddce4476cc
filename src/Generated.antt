-- ===== src/Generated.antt =====
-- src/generated.rs: the sample metrics of the crate, as what the three macros read of them. The
-- visibility `pub` is an argument.
use chalk_metrics.Macros.{
  TagRef, MetricDef, MetricGroup, Namespace, top, child, count, gauge, histogram,
}
use chalk_metrics.Macros.Parsing.{NamespaceDef}
use chalk_metrics.Macros.Tags.{TagDef}
use chalk_metrics.Prelude.{true, false, List, [], ◌∷◌, none, some}
use chalk_metrics.Prelude.Text.{Str, codes}

-- A tag as it is named in a list, with the name of its type.
abbrev tag : Str → TagRef
tag ty = record { optional = false; ty = ty ∷ []; alias = none }

-- `Endpoint`, `Status` and `Region` as they are named in the lists of tags.
abbrev pub endpoint : TagRef
endpoint = tag (codes "Endpoint")

abbrev pub status : TagRef
status = tag (codes "Status")

abbrev pub region : TagRef
region = record { optional = true; ty = codes "Region" ∷ []; alias = none }

abbrev pub resolver_status : TagRef
resolver_status = record (tag (codes "Status")) { alias = some (codes "resolver_status") }

abbrev pub resolver_fqn : TagRef
resolver_fqn = record {
  optional = true;
  ty = codes "Endpoint" ∷ [];
  alias = some (codes "resolver_fqn");
}

-- The namespace types as values.
abbrev pub http : Namespace
http = top (codes "http")

abbrev pub resolver : Namespace
resolver = top (codes "resolver")

abbrev pub http_auth : Namespace
http_auth = child http (codes "auth")

module _ {V : Type 0} (public : V) where
  -- `define_tags!`
  abbrev pub sample_tags : List (TagDef V)
  sample_tags =
      record {
        vis = public;
        ident = codes "Status";
        export_name = codes "status";
        values = some (
            (codes "Success", codes "success")
            ∷ (codes "Failure", codes "failure")
            ∷ (codes "Timeout", codes "timeout")
            ∷ []);
      }
      ∷ record {
        vis = public;
        ident = codes "Endpoint";
        export_name = codes "endpoint";
        values = none;
      }
      ∷ record { vis = public; ident = codes "Region"; export_name = codes "region"; values = none }
      ∷ []

  -- `define_namespaces!`
  abbrev pub sample_namespaces : List (NamespaceDef V)
  sample_namespaces =
      record { vis = public; ident = codes "Http"; parent = none; segment = codes "http" }
      ∷ record { vis = public; ident = codes "Resolver"; parent = none; segment = codes "resolver" }
      ∷ record {
        vis = public;
        ident = codes "HttpAuth";
        parent = some (codes "Http" ∷ []);
        segment = codes "auth";
      }
      ∷ []

  abbrev pub uptime : MetricDef V
  uptime = record {
    vis = public;
    kind = gauge;
    ident = codes "Uptime";
    name = codes "uptime";
    description = codes "Process uptime in seconds";
    extra_tags = [];
  }

  abbrev pub http_request_latency : MetricDef V
  http_request_latency = record {
    vis = public;
    kind = histogram;
    ident = codes "HttpRequestLatency";
    name = codes "request_latency";
    description = codes "HTTP request latency in seconds";
    extra_tags = [];
  }

  abbrev pub http_request_count : MetricDef V
  http_request_count = record {
    vis = public;
    kind = count;
    ident = codes "HttpRequestCount";
    name = codes "request_count";
    description = codes "Total number of HTTP requests";
    extra_tags = [];
  }

  abbrev pub http_active_connections : MetricDef V
  http_active_connections = record {
    vis = public;
    kind = gauge;
    ident = codes "HttpActiveConnections";
    name = codes "active_connections";
    description = codes "Current number of active connections";
    extra_tags = region ∷ [];
  }

  abbrev pub resolver_latency : MetricDef V
  resolver_latency = record {
    vis = public;
    kind = histogram;
    ident = codes "ResolverLatency";
    name = codes "latency";
    description = codes "Resolver execution latency in seconds";
    extra_tags = resolver_status ∷ resolver_fqn ∷ [];
  }

  abbrev pub http_auth_login_count : MetricDef V
  http_auth_login_count = record {
    vis = public;
    kind = count;
    ident = codes "HttpAuthLoginCount";
    name = codes "login_count";
    description = codes "HTTP auth login attempts";
    extra_tags = [];
  }

  -- `define_metrics!`
  abbrev pub sample_groups : List (MetricGroup V)
  sample_groups =
      record { namespace = none; tags = []; metrics = uptime ∷ [] }
      ∷ record {
        namespace = some (codes "Http" ∷ []);
        tags = endpoint ∷ status ∷ [];
        metrics = http_request_latency ∷ http_request_count ∷ [];
      }
      ∷ record {
        namespace = some (codes "Http" ∷ []);
        tags = endpoint ∷ [];
        metrics = http_active_connections ∷ [];
      }
      ∷ record {
        namespace = some (codes "Resolver" ∷ []);
        tags = endpoint ∷ [];
        metrics = resolver_latency ∷ [];
      }
      ∷ record {
        namespace = some (codes "HttpAuth" ∷ []);
        tags = endpoint ∷ status ∷ [];
        metrics = http_auth_login_count ∷ [];
      }
      ∷ []
