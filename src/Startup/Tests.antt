-- ===== src/Startup/Tests.antt =====
-- A system with one upstream and one key, without a policy file and without an audit log.
use mcpshield.Prelude.{ℕ, true, none, some, [], ◌∷◌, ◌≡◌, refl, ◌⊎◌}
use mcpshield.Config.{Config}
use mcpshield.Config.Build.{
  parse_int_with_default, parse_duration_with_default, merge_manager, check_upstream,
  upstream_runtime, build_upstream, build_upstreams, build_server_runtime, build_runtime,
}
use mcpshield.Config.Tests.{toy_duration, upstream_named, config_of}
use mcpshield.Auth.{build_auth, build_api_key, collect_keys}
use mcpshield.Auth.Tests.{toy_sum, toy_decode, keyed_config}
use mcpshield.Audit.Open.{Environment, new_logger}
use mcpshield.Policy.Engine.{new_engine}
use mcpshield.Transport.Tests as TransportTests
use mcpshield.Upstream.{ready}
use mcpshield.Upstream.Tests.{managing, fs_entry}
use mcpshield.Startup.{System, Network}
use mcpshield.Startup.Parts.{load_config, build_engine, load_parts, assemble}
use mcpshield.Startup.Guarded.{Succeeds}
use mcpshield.Startup.Started.{IsGuarded, assemble-IsGuarded, assemble-Succeeds}
use mcpshield.Startup.Warmup.{warmup_loop, AllRefused, warmup_loop-ready}

abbrev pub one_upstream : Config
one_upstream = record (config_of (upstream_named "files" "5s" ∷ [])) { auth = keyed_config }

abbrev pub toy_environment : Environment
toy_environment = record {
  parse_duration = toy_duration;
  atoi = λ s. none;
  parse_int = λ s. none;
  scaled = λ s n. none;
  to_upper = λ s. s;
  trim_space = λ s. s;
  open_db = λ s. none;
  exec = λ s. true;
}

abbrev pub toy_system : System
toy_system = record {
  read_file = λ path. some "text";
  expand_env = λ s. s;
  decode_config = λ s. some one_upstream;
  decode_policy = λ s. none;
  compile_re = λ s. none;
  decode_hex = toy_decode;
  audit = toy_environment;
}

abbrev pub toy_network : Network ℕ
toy_network = record {
  post = TransportTests.toy_post;
  decode = TransportTests.toy_decode;
  int64_of = TransportTests.always_one;
  tools_of = λ j. some [];
  result_of = λ j. none;
  describe = λ e. "error";
}

toy_loaded : Succeeds (load_parts toy_system "config.yaml")
unfolding load_parts load_config build_runtime build_server_runtime build_upstreams build_upstream
    upstream_runtime check_upstream parse_int_with_default parse_duration_with_default merge_manager
    build_auth build_api_key collect_keys build_engine new_engine new_logger
toy_loaded = (_, refl)

assemble-Succeeds_example : Succeeds (assemble toy_network toy_system "config.yaml" 0)
assemble-Succeeds_example =
    assemble-Succeeds toy_network toy_system "config.yaml" 0 toy_loaded.0 toy_loaded.1

toy_assembled : Succeeds (assemble toy_network toy_system "config.yaml" 0)
toy_assembled = assemble-Succeeds toy_network toy_system "config.yaml" 0 toy_loaded.0 toy_loaded.1

assemble-IsGuarded_example : IsGuarded toy_system toy_sum "config.yaml" toy_assembled.0
assemble-IsGuarded_example =
    assemble-IsGuarded toy_network toy_system toy_sum "config.yaml" 0 toy_assembled.0
      toy_assembled.1

warmup_loop-ready_example :
    (ready (warmup_loop (3 ∷ 9 ∷ []) (managing (fs_entry ∷ []) none) 0).0 ≡ true)
    ⊎ AllRefused (3 ∷ 9 ∷ []) (managing (fs_entry ∷ []) none) 0
warmup_loop-ready_example =
    warmup_loop-ready (3 ∷ 9 ∷ []) (managing (fs_entry ∷ []) none) 0 refl refl
