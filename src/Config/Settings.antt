-- ===== src/Config/Settings.antt =====
-- The settings of one server and of one upstream that `BuildRuntime` of pkg/config/config.go makes.
use mcpshield.Prelude.{
  String, true, false, Option, List, ℤ, is_pos, ◌≡◌, refl, Ensures, ensure, ensure_ok, if-elim,
  if◌then◌else◌, arith, ◌==◌,
}
use mcpshield.Config.{
  ServerConfig, UpstreamConfig, ServerRuntimeConfig, UpstreamRuntimeConfig, Field,
}
use mcpshield.Config.Build.{
  parse_int_with_default, parse_duration_with_default, build_server_runtime, upstream_runtime,
}

-- Every bound of the server is positive.
pub record ServerIsSound (s : ServerRuntimeConfig) : Type 0 where
  pub listen : (s.listen == "") ≡ false
  pub max_request_bytes : is_pos s.max_request_bytes ≡ true
  pub request_timeout : is_pos s.request_timeout ≡ true
  pub read_timeout : is_pos s.read_timeout ≡ true
  pub write_timeout : is_pos s.write_timeout ≡ true
  pub idle_timeout : is_pos s.idle_timeout ≡ true
  pub warmup_timeout : is_pos s.warmup_timeout ≡ true
  pub warmup_retry_interval : is_pos s.warmup_retry_interval ≡ true
  pub session_ttl : is_pos s.session_ttl ≡ true
  pub session_max_entries : is_pos s.session_max_entries ≡ true

-- Every bound of the upstream is positive.
pub record BoundsArePositive (r : UpstreamRuntimeConfig) : Type 0 where
  pub request_timeout : is_pos r.request_timeout ≡ true
  pub max_response_bytes : is_pos r.max_response_bytes ≡ true
  pub tools_cache_ttl : is_pos r.tools_cache_ttl ≡ true
  pub refresh_timeout : is_pos r.refresh_timeout ≡ true

-- What the runtime configuration takes over from the raw one as it is.
pub record Taken : Type 0 where
  pub id : String
  pub tool_prefix : String
  pub url : String
  pub headers : List (String × String)

abbrev pub of_config : UpstreamConfig → Taken
of_config u = record { id = u.id; tool_prefix = u.tool_prefix; url = u.url; headers = u.headers }

abbrev pub of_runtime : UpstreamRuntimeConfig → Taken
of_runtime r = record { id = r.id; tool_prefix = r.tool_prefix; url = r.url; headers = r.headers }

parse_int-pos :
    (field : Field) (raw : Option ℤ) (def : ℤ)
    → is_pos def ≡ true
    → Ensures (λ n. is_pos n ≡ true) (parse_int_with_default field raw def)
unfolding parse_int_with_default
parse_int-pos field raw def d = record { holds = λ n h. ground (arith, h, d) }

module _ (parse_duration : String → Option ℤ) where
  parse_duration-pos :
      (field : Field) (raw : String) (def : ℤ)
      → is_pos def ≡ true
      → Ensures (λ n. is_pos n ≡ true) (parse_duration_with_default parse_duration field raw def)
  unfolding parse_duration_with_default
  parse_duration-pos field raw def d = record { holds = λ n h. ground (arith, h, d) }

  pub upstream_runtime-Ensures :
      (u : UpstreamConfig)
      → Ensures
          (λ r. BoundsArePositive r × (of_runtime r ≡ of_config u))
          (upstream_runtime parse_duration u)
  unfolding upstream_runtime
  upstream_runtime-Ensures u = ensure (parse_duration-pos _ u.request_timeout _ refl) λ request p.
      ensure (parse_int-pos _ u.max_response_bytes _ refl) λ bytes q.
        ensure (parse_duration-pos _ u.tools_cache_ttl _ refl) λ ttl r.
          ensure (parse_duration-pos _ u.refresh_timeout _ refl) λ refresh s. ensure_ok (
            record {
              request_timeout = p;
              max_response_bytes = q;
              tools_cache_ttl = r;
              refresh_timeout = s;
            },
            refl,
          )

  listen_or_default : (s : String) → ((if s == "" then ":8080" else s) == "") ≡ false
  listen_or_default s = if-elim (λ v. (v == "") ≡ false) (s == "") (λ _. refl) (λ other. other)

  pub build_server-Ensures :
      (s : ServerConfig) → Ensures ServerIsSound (build_server_runtime parse_duration s)
  unfolding build_server_runtime
  build_server-Ensures s = ensure (parse_duration-pos _ s.request_timeout _ refl) λ request a.
      ensure (parse_duration-pos _ s.read_timeout _ refl) λ reading b.
        ensure (parse_duration-pos _ s.write_timeout _ refl) λ writing c.
          ensure (parse_duration-pos _ s.idle_timeout _ refl) λ idle d.
            ensure (parse_duration-pos _ s.warmup_timeout _ refl) λ warmup e.
              ensure (parse_duration-pos _ s.warmup_retry_interval _ refl) λ retry f.
                ensure (parse_duration-pos _ s.session_ttl _ refl) λ ttl g.
                  ensure (parse_int-pos _ s.max_request_bytes _ refl) λ bytes h.
                    ensure (parse_int-pos _ s.session_max_entries _ refl) λ entries i.
                      ensure_ok (record {
                        listen = listen_or_default s.listen;
                        max_request_bytes = h;
                        request_timeout = a;
                        read_timeout = b;
                        write_timeout = c;
                        idle_timeout = d;
                        warmup_timeout = e;
                        warmup_retry_interval = f;
                        session_ttl = g;
                        session_max_entries = i;
                      })
