-- ===== src/Config/Build.antt =====
-- pkg/config/config.go: `BuildRuntime`, which checks the raw configuration and fills in defaults.
-- `time.ParseDuration` is the parameter `parse_duration`.
use mcpshield.Prelude.{
  ℕ, zero, suc, ◌*◌, String, not, Option, none, some, List, [], ◌∷◌, ◌++◌, ℤ, pos, is_pos, pos_part,
  contains, ltb, if◌then◌else◌, ◌==◌, Result, ok, err, ◌>>=◌,
}
use mcpshield.Config.{
  ServerConfig, UpstreamConfig, Config, ServerRuntimeConfig, UpstreamRuntimeConfig,
  UpstreamManagerRuntimeConfig, RuntimeConfig, second, Field, server_field, upstream_field,
  ConfigError, not_a_duration, not_positive, not_positive_when_set, id_required, prefix_required,
  url_required, id_not_unique, prefix_not_unique,
}

-- `parseIntWithDefault` and `parseInt64WithDefault`
unfoldable pub parse_int_with_default : Field → Option ℤ → ℤ → Result ConfigError ℤ
parse_int_with_default field none def = ok def
parse_int_with_default field (some raw) def =
    if not (is_pos raw) then err (not_positive_when_set field) else ok raw

-- `minDuration` of durations that are positive
unfoldable pub min_duration : ℤ → ℤ → ℤ
min_duration a b = if ltb (pos_part b) (pos_part a) then b else a

-- the shared settings: the first ones, then the smaller of each
unfoldable pub merge_manager :
    Option UpstreamManagerRuntimeConfig → ℤ → ℤ → UpstreamManagerRuntimeConfig
unfolding min_duration
merge_manager none ttl refresh = record { tools_cache_ttl = ttl; refresh_timeout = refresh }
merge_manager (some m) ttl refresh = record {
  tools_cache_ttl = min_duration m.tools_cache_ttl ttl;
  refresh_timeout = min_duration m.refresh_timeout refresh;
}

abbrev pub manager_or_default : Option UpstreamManagerRuntimeConfig → UpstreamManagerRuntimeConfig
manager_or_default none = record {
  tools_cache_ttl = pos (10 * second);
  refresh_timeout = pos (30 * second);
}
manager_or_default (some m) = m

-- The locals of `buildUpstreamRuntime` that its loop changes.
pub record Building : Type 0 where
  pub ids : List String
  pub prefixes : List String
  pub built : List UpstreamRuntimeConfig
  pub manager : Option UpstreamManagerRuntimeConfig

abbrev pub nothing_built : Building
nothing_built = record { ids = []; prefixes = []; built = []; manager = none }

-- the checks at the head of the loop's body; `i` is the upstream's index
unfoldable pub check_upstream : ℕ → UpstreamConfig → Building → Result ConfigError (Unit {0})
check_upstream i u b =
    if u.id == ""
    then err (id_required i)
    else if u.tool_prefix == ""
    then err (prefix_required u.id)
    else if u.url == ""
    then err (url_required u.id)
    else if contains b.ids u.id
    then err (id_not_unique u.id)
    else if contains b.prefixes u.tool_prefix
    then err (prefix_not_unique u.tool_prefix)
    else ok tt

-- the end of the loop's body
abbrev pub add_upstream : UpstreamRuntimeConfig → Building → Building
add_upstream r b = record {
  ids = r.id ∷ b.ids;
  prefixes = r.tool_prefix ∷ b.prefixes;
  built = b.built ++ r ∷ [];
  manager = some (merge_manager b.manager r.tools_cache_ttl r.refresh_timeout);
}

module _ (parse_duration : String → Option ℤ) where
  unfoldable pub parse_duration_with_default : Field → String → ℤ → Result ConfigError ℤ
  parse_duration_with_default field raw def =
      if raw == "" then ok def else (elim (parse_duration raw) [
        | none ↦ err (not_a_duration field)
        | some d ↦ if not (is_pos d) then err (not_positive field) else ok d
      ])

  unfoldable pub build_server_runtime : ServerConfig → Result ConfigError ServerRuntimeConfig
  build_server_runtime s = do
    request ←
        parse_duration_with_default (server_field "request_timeout") s.request_timeout
          (pos (60 * second))
    reading ←
        parse_duration_with_default (server_field "read_timeout") s.read_timeout (pos (30 * second))
    writing ←
        parse_duration_with_default (server_field "write_timeout") s.write_timeout
          (pos (30 * second))
    idle ←
        parse_duration_with_default (server_field "idle_timeout") s.idle_timeout
          (pos (120 * second))
    warmup ←
        parse_duration_with_default (server_field "warmup_timeout") s.warmup_timeout
          (pos (30 * second))
    retry ←
        parse_duration_with_default (server_field "warmup_retry_interval") s.warmup_retry_interval
          (pos (5 * second))
    ttl ←
        parse_duration_with_default (server_field "session_ttl") s.session_ttl (pos (1800 * second))
    bytes ←
        parse_int_with_default (server_field "max_request_bytes") s.max_request_bytes
          (pos 1_048_576)
    entries ←
        parse_int_with_default (server_field "session_max_entries") s.session_max_entries
          (pos 10_000)
    ok (record {
      listen = if s.listen == "" then ":8080" else s.listen;
      max_request_bytes = bytes;
      request_timeout = request;
      read_timeout = reading;
      write_timeout = writing;
      idle_timeout = idle;
      warmup_timeout = warmup;
      warmup_retry_interval = retry;
      session_ttl = ttl;
      session_max_entries = entries;
    })

  -- the settings of one upstream
  unfoldable pub upstream_runtime : UpstreamConfig → Result ConfigError UpstreamRuntimeConfig
  upstream_runtime u = do
    request ←
        parse_duration_with_default (upstream_field u.id "request_timeout") u.request_timeout
          (pos (30 * second))
    bytes ←
        parse_int_with_default (upstream_field u.id "max_response_bytes") u.max_response_bytes
          (pos 4_194_304)
    ttl ←
        parse_duration_with_default (upstream_field u.id "tools_cache_ttl") u.tools_cache_ttl
          (pos (10 * second))
    refresh ←
        parse_duration_with_default (upstream_field u.id "refresh_timeout") u.refresh_timeout
          (pos (30 * second))
    ok (record {
      id = u.id;
      tool_prefix = u.tool_prefix;
      url = u.url;
      headers = u.headers;
      request_timeout = request;
      max_response_bytes = bytes;
      tools_cache_ttl = ttl;
      refresh_timeout = refresh;
    })

  -- the loop's body
  unfoldable pub build_upstream : ℕ → UpstreamConfig → Building → Result ConfigError Building
  build_upstream i u b = do _ ← check_upstream i u b; r ← upstream_runtime u; ok (add_upstream r b)

  unfoldable pub build_upstreams : ℕ → List UpstreamConfig → Building → Result ConfigError Building
  build_upstreams i [] b = ok b
  build_upstreams i (u ∷ us) b = build_upstream i u b >>= λ b'. build_upstreams (suc i) us b'

  unfoldable pub build_runtime : Config → Result ConfigError RuntimeConfig
  build_runtime cfg = do
    server ← build_server_runtime cfg.server
    b ← build_upstreams zero cfg.upstreams nothing_built
    ok (record {
      server = server;
      upstreams = b.built;
      upstream_manager = manager_or_default b.manager;
    })
