-- ===== src/Tests/Macros.antt =====
-- Instances of the theorems on the macros, at the sample metrics of src/generated.rs.
use chalk_metrics.Generated.{
  sample_tags, sample_namespaces, sample_groups, http_auth, endpoint, status, uptime,
  http_request_latency, http_request_count, http_active_connections, resolver_latency,
  http_auth_login_count, region, resolver_status, resolver_fqn,
}
use chalk_metrics.Macros.{
  gauge, metric_doc, Casing, TagRef, MetricDef, kind_name, to_snake_case, snake_from, export_key,
  field_pairs, str_beq, parsed, path, field_name, export_pairs, required, unset, present,
  default_field_ident,
}
use chalk_metrics.Macros.Expansion.{Expanded, expand_metric}
use chalk_metrics.Macros.Parsing.{parse_groups, parse_tags, parse_namespaces}
use chalk_metrics.Macros.Printing.{
  IsTagRef, IsMetricGroup, IsMetricDef, IsTagDef, IsNamespaceDef, groups_tokens, tags_tokens,
  namespaces_tokens,
}
use chalk_metrics.Macros.Python.{metric_class, record_methods}
use chalk_metrics.Macros.RoundTrip.Metrics.{parse_groups-tokens}
use chalk_metrics.Macros.RoundTrip.Namespaces.{parse_namespaces-tokens}
use chalk_metrics.Macros.RoundTrip.Tags.{parse_tags-tokens}
use chalk_metrics.Macros.Syn.{IsIdent}
use chalk_metrics.Prelude.{
  some, true, false, ◌≡◌, refl, List, [], ◌∷◌, All, map, arith, leb, ◌&&◌, if◌then◌else◌, ◌+◌,
}
use chalk_metrics.Prelude.Text.{Str, codes}
use chalk_metrics.Tests.Tokens.{Visibility, public, trees, trees-IsSyn, from_tokens}

-- The letters of ASCII.
instance abbrev ascii : Casing
ascii = record {
  is_uppercase = λ c. leb b'A' c && leb c b'Z';
  to_lowercase = λ c. (if leb b'A' c && leb c b'Z' then c + 32 else c) ∷ [];
}

tags_good : All (IsTagDef trees 4) (sample_tags public)
tags_good = (
  record { ident = refl; values = ((refl, (refl, (refl, tt))), omega arith) },
  (record { ident = refl; values = tt }, (record { ident = refl; values = tt }, tt)),
)

namespaces_good : All (IsNamespaceDef trees) (sample_namespaces public)
namespaces_good = (
  record { ident = refl; parent = tt },
  (record { ident = refl; parent = tt }, (record { ident = refl; parent = (refl, tt) }, tt)),
)

endpoint_good : IsTagRef trees endpoint
endpoint_good = record { ty = (refl, tt); unmarked = refl; alias = tt }

status_good : IsTagRef trees status
status_good = record { ty = (refl, tt); unmarked = refl; alias = tt }

region_good : IsTagRef trees region
region_good = record { ty = (refl, tt); unmarked = refl; alias = tt }

extra_good : All (IsTagRef trees) (resolver_status ∷ resolver_fqn ∷ [])
extra_good = (
  record { ty = (refl, tt); unmarked = refl; alias = refl },
  (record { ty = (refl, tt); unmarked = refl; alias = refl }, tt),
)

plain_metric :
    (m : MetricDef Visibility)
    → IsIdent trees (kind_name m.kind)
    → IsIdent trees m.ident
    → All (IsTagRef trees) m.extra_tags
    → IsMetricDef trees m
plain_metric m kind ident extra = record { kind = kind; ident = ident; extra_tags = extra }

groups_good : All (IsMetricGroup trees 3) (sample_groups public)
unfolding kind_name
groups_good = (
  record {
    namespace = tt;
    tags = tt;
    metrics = (plain_metric (uptime public) refl refl tt, tt);
    few = omega arith;
  },
  (
    record {
      namespace = (refl, tt);
      tags = (endpoint_good, (status_good, tt));
      metrics = (
        plain_metric (http_request_latency public) refl refl tt,
        (plain_metric (http_request_count public) refl refl tt, tt),
      );
      few = omega arith;
    },
    (
      record {
        namespace = (refl, tt);
        tags = (endpoint_good, tt);
        metrics = (plain_metric (http_active_connections public) refl refl (region_good, tt), tt);
        few = omega arith;
      },
      (
        record {
          namespace = (refl, tt);
          tags = (endpoint_good, tt);
          metrics = (plain_metric (resolver_latency public) refl refl extra_good, tt);
          few = omega arith;
        },
        (
          record {
            namespace = (refl, tt);
            tags = (endpoint_good, (status_good, tt));
            metrics = (plain_metric (http_auth_login_count public) refl refl tt, tt);
            few = omega arith;
          },
          tt,
        ),
      ),
    ),
  ),
)

parse_tags-tokens_example :
    parse_tags trees 7 (from_tokens (tags_tokens trees (sample_tags public)))
    ≡ parsed (sample_tags public)
parse_tags-tokens_example =
    parse_tags-tokens trees trees-IsSyn 7 4 (sample_tags public)
      (from_tokens (tags_tokens trees (sample_tags public))) (omega arith) (omega arith) refl
      tags_good

parse_namespaces-tokens_example :
    parse_namespaces trees 4 (from_tokens (namespaces_tokens trees (sample_namespaces public)))
    ≡ parsed (sample_namespaces public)
parse_namespaces-tokens_example =
    parse_namespaces-tokens trees trees-IsSyn 4 (sample_namespaces public)
      (from_tokens (namespaces_tokens trees (sample_namespaces public))) (omega arith) refl
      namespaces_good

parse_groups-tokens_example :
    parse_groups trees 8 (from_tokens (groups_tokens trees (sample_groups public)))
    ≡ parsed (sample_groups public)
parse_groups-tokens_example =
    parse_groups-tokens trees trees-IsSyn 8 3 (sample_groups public)
      (from_tokens (groups_tokens trees (sample_groups public))) (omega arith) (omega arith) refl
      groups_good

-- As `test_metric_name_and_namespace` and `test_optional_alias` of src/generated.rs have it.
path-http_auth : path http_auth ≡ codes "http" ∷ codes "auth" ∷ []
unfolding path
path-http_auth = refl

field_name-endpoint : field_name endpoint ≡ codes "endpoint"
unfolding field_name default_field_ident to_snake_case snake_from
field_name-endpoint = refl

-- The fields of `ResolverLatency`, and what it exports where the optional tag is set and where not.
abbrev resolver_tags : List TagRef
resolver_tags = endpoint ∷ resolver_status ∷ resolver_fqn ∷ []

resolver_fields :
    map field_name resolver_tags
    ≡ codes "endpoint" ∷ codes "resolver_status" ∷ codes "resolver_fqn" ∷ []
unfolding field_name default_field_ident to_snake_case snake_from
resolver_fields = refl

-- The export names of the sample tags, by the first letter of their types.
abbrev pub export_name : List Str → Str
export_name (ty ∷ []) = if str_beq ty (codes "Endpoint") then codes "endpoint" else codes "status"
export_name path = []

resolver_pairs :
    export_pairs export_name resolver_tags (
      required (codes "api/v1")
      ∷ required (codes "success")
      ∷ present (codes "resolver.example")
      ∷ [])
    ≡ (codes "endpoint", codes "api/v1")
      ∷ (codes "resolver_status", codes "success")
      ∷ (codes "resolver_fqn", codes "resolver.example")
      ∷ []
unfolding export_pairs export_key field_pairs
resolver_pairs = refl

resolver_pairs_unset :
    export_pairs export_name resolver_tags
      (required (codes "api/v1") ∷ required (codes "success") ∷ unset ∷ [])
    ≡ (codes "endpoint", codes "api/v1") ∷ (codes "resolver_status", codes "success") ∷ []
unfolding export_pairs export_key field_pairs
resolver_pairs_unset = refl

-- What `define_metrics!` makes of the metric `HttpActiveConnections`, and its class for Python.
abbrev connections : Expanded Visibility
connections = record {
  vis = public;
  ident = codes "HttpActiveConnections";
  name = codes "active_connections";
  doc = codes "Current number of active connections (gauge)";
  kind = gauge;
  namespace = codes "Http" ∷ [];
  fields = (codes "endpoint", false) ∷ (codes "region", true) ∷ [];
  tags = endpoint ∷ region ∷ [];
  python_wrapper = some (record {
    ident = codes "PyHttpActiveConnections";
    name = codes "HttpActiveConnections";
    options = codes "frozen" ∷ [];
    constructor = some (codes "endpoint" ∷ codes "region" ∷ []);
    getters = [];
    methods = codes "record" ∷ [];
  });
}

expand_metric-connections :
    expand_metric true (codes "Http" ∷ []) (endpoint ∷ region ∷ []) (http_active_connections public)
    ≡ connections
unfolding expand_metric field_name default_field_ident to_snake_case snake_from metric_doc
    metric_class kind_name record_methods
expand_metric-connections = refl
