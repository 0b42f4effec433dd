-- ===== src/Config/Tests.antt =====
-- A configuration with two upstreams.
use mcpshield.Prelude.{
  String, false, Option, none, some, List, [], ◌∷◌, ◌≡◌, refl, ok, err, pos, ℤ, ◌==◌, if◌then◌else◌,
  ◌*◌,
}
use mcpshield.Config.{
  ServerConfig, UpstreamConfig, Config, RuntimeConfig, UpstreamRuntimeConfig, second, id_not_unique,
}
use mcpshield.Config.Build.{
  parse_int_with_default, parse_duration_with_default, min_duration, merge_manager, check_upstream,
  upstream_runtime, build_upstream, build_upstreams, build_server_runtime, build_runtime,
}
use mcpshield.Config.Sound.{IsRuntimeOf, build_runtime-IsRuntimeOf}

abbrev pub toy_duration : String → Option ℤ
toy_duration s =
    if s == "5s" then some (pos (5 * second)) else if s == "0s" then some (pos 0) else none

abbrev pub plain_server : ServerConfig
plain_server = record {
  listen = "";
  max_request_bytes = none;
  insecure_allow_anonymous = false;
  request_timeout = "";
  read_timeout = "5s";
  write_timeout = "";
  idle_timeout = "";
  warmup_timeout = "";
  session_ttl = "";
  session_max_entries = some (pos 3);
  warmup_retry_interval = "";
}

abbrev pub upstream_named : String → String → UpstreamConfig
upstream_named id ttl = record {
  id = id;
  tool_prefix = id;
  url = "http://localhost";
  headers = [];
  request_timeout = "";
  max_response_bytes = none;
  tools_cache_ttl = ttl;
  refresh_timeout = "";
}

abbrev pub config_of : List UpstreamConfig → Config
config_of us = record {
  server = plain_server;
  auth = record { kind = "none"; keys = [] };
  policy_file = "";
  upstreams = us;
  metrics = record { enabled = false; include_client_id = false };
  audit = record {
    enabled = false;
    backend = "";
    sqlite = record { path = ""; wal = false; busy_timeout = ""; synchronous = "" };
    write = record {
      batch_max_events = pos 0;
      batch_max_delay = "";
      channel_size = pos 0;
      mode = "";
    };
    retention = record { max_age = ""; max_size = ""; vacuum_interval = "" };
    hash_chain = false;
  };
}

abbrev runtime_named : String → ℤ → UpstreamRuntimeConfig
runtime_named id ttl = record {
  id = id;
  tool_prefix = id;
  url = "http://localhost";
  headers = [];
  request_timeout = pos (30 * second);
  max_response_bytes = pos 4_194_304;
  tools_cache_ttl = ttl;
  refresh_timeout = pos (30 * second);
}

abbrev two_upstreams : Config
two_upstreams = config_of (upstream_named "a" "" ∷ upstream_named "b" "5s" ∷ [])

abbrev two_runtime : RuntimeConfig
two_runtime = record {
  server = record {
    listen = ":8080";
    max_request_bytes = pos 1_048_576;
    request_timeout = pos (60 * second);
    read_timeout = pos (5 * second);
    write_timeout = pos (30 * second);
    idle_timeout = pos (120 * second);
    warmup_timeout = pos (30 * second);
    warmup_retry_interval = pos (5 * second);
    session_ttl = pos (1800 * second);
    session_max_entries = pos 3;
  };
  upstreams = runtime_named "a" (pos (10 * second)) ∷ runtime_named "b" (pos (5 * second)) ∷ [];
  upstream_manager = record {
    tools_cache_ttl = pos (5 * second);
    refresh_timeout = pos (30 * second);
  };
}

two_built : build_runtime toy_duration two_upstreams ≡ ok two_runtime
unfolding build_runtime build_server_runtime build_upstreams build_upstream upstream_runtime
    check_upstream parse_int_with_default parse_duration_with_default merge_manager min_duration
two_built = refl

same_id_refused :
    build_runtime toy_duration (config_of (upstream_named "a" "" ∷ upstream_named "a" "" ∷ []))
    ≡ err (id_not_unique "a")
unfolding build_runtime build_server_runtime build_upstreams build_upstream upstream_runtime
    check_upstream parse_int_with_default parse_duration_with_default merge_manager
same_id_refused = refl

build_runtime-IsRuntimeOf_example : IsRuntimeOf two_upstreams two_runtime
build_runtime-IsRuntimeOf_example =
    build_runtime-IsRuntimeOf toy_duration two_upstreams two_runtime two_built
