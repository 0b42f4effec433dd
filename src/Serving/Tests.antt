-- ===== src/Serving/Tests.antt =====
-- A server with one upstream, one key and a policy file that allows one tool, and a run of it.
use mcpshield.Prelude.{ℕ, none, some, [], ◌∷◌, ◌≡◌, refl, ◌⊎◌, ok}
use mcpshield.Config.{Config}
use mcpshield.Config.Build.{
  parse_int_with_default, parse_duration_with_default, merge_manager, check_upstream,
  upstream_runtime, build_upstream, build_upstreams, build_server_runtime, build_runtime,
}
use mcpshield.Policy.Loader.{
  PolicyFile, compile, compile_rules, compile_rule, check_rule, rule_tools, compile_args,
  compile_limit?, load_from_bytes,
}
use mcpshield.Policy.Engine.{new_engine}
use mcpshield.Auth.{build_auth, build_api_key, collect_keys}
use mcpshield.Auth.Tests.{toy_sum}
use mcpshield.Audit.Open.{new_logger}
use mcpshield.Audit.Logger.{sent}
use mcpshield.Audit.Tests.{plain}
use mcpshield.Gateway.Sessions.Invariant.{IsValid}
use mcpshield.Gateway.Serve.{HttpRequest}
use mcpshield.Gateway.Tests as GatewayTests
use mcpshield.Startup.{System}
use mcpshield.Startup.Tests.{one_upstream, toy_system, toy_network}
use mcpshield.Startup.Parts.{load_config, load_from_file, build_engine, load_parts, assemble}
use mcpshield.Startup.Guarded.{Succeeds}
use mcpshield.Startup.Started.{assemble-Succeeds}
use mcpshield.Serving.{Libraries, Moment, ServerGateway, serve}
use mcpshield.Serving.Runs.{start, then_step, then_reload, requested, at_files, Run}
use mcpshield.Serving.Guarded.{Granted, started-Granted}
use mcpshield.Startup.Reload.{sighup}

abbrev reads_only : PolicyFile
reads_only = record {
  version = "1";
  default_action = "deny";
  toolsets = [];
  rules =
      record {
        name = "reads";
        action = "allow";
        tools = "fs.read" ∷ [];
        toolset = "";
        args = [];
        reason = "";
        rate_limit = none;
      }
      ∷ [];
}

abbrev with_policy : Config
with_policy = record one_upstream { policy_file = "policy.yaml" }

abbrev pub policed : System
policed = record toy_system {
  decode_config = λ s. some with_policy;
  decode_policy = λ s. some reads_only;
}

abbrev pub libraries : Libraries
libraries = record {
  codec = GatewayTests.codec;
  marshal = record {
    arguments = λ args. some "args";
    response = λ p. none;
    failure = λ f. none;
    fallback = none;
    raw = λ id. "";
  };
  unmarshal_call = λ j. some GatewayTests.read_call;
  sum256 = toy_sum;
}

abbrev pub moment : Moment
moment = record {
  clock = GatewayTests.clock;
  fresh = "s2";
  log = record { event_id = some "id"; selected = sent };
}

policed_loaded : Succeeds (load_parts policed "config.yaml")
unfolding load_parts load_config build_runtime build_server_runtime build_upstreams build_upstream
    upstream_runtime check_upstream parse_int_with_default parse_duration_with_default merge_manager
    build_auth build_api_key collect_keys build_engine new_engine new_logger load_from_file
    load_from_bytes compile compile_rules compile_rule check_rule rule_tools compile_args
    compile_limit?
policed_loaded = (_, refl)

pub started : Succeeds (assemble toy_network policed "config.yaml" 0)
started = assemble-Succeeds toy_network policed "config.yaml" 0 policed_loaded.0 policed_loaded.1

policed_read : load_config policed "config.yaml" ≡ ok with_policy
unfolding load_config
policed_read = refl

abbrev pub post : HttpRequest
post = record GatewayTests.post { authorization = "Bearer secret" }

-- the gateway after a request and a reload that finds no file
abbrev later : ServerGateway ℕ
later =
    let g = (serve libraries started.0.authenticator moment post started.0.gateway).1 in
    record g { policy = sighup (at_files policed (λ path. none)) "policy.yaml" g.policy }

later_reached :
    Run libraries plain started.0.authenticator policed "policy.yaml"
      ((λ path. none) ∷ [])
      started.0.gateway
      later
later_reached =
    then_reload (then_step (start started.0.gateway) (requested started.0.gateway moment post refl))
      (λ path. none)

started-Granted_example :
    IsValid later.sessions
    × (((serve libraries started.0.authenticator moment post later).1.upstream.1 ≡ later.upstream.1)
        ⊎ Granted policed libraries with_policy ((λ path. none) ∷ []) moment post later)
started-Granted_example =
    started-Granted toy_network policed libraries plain "config.yaml" 0 with_policy started.0
      policed_read started.1 later_reached moment post
