-- ===== src/Startup.antt =====
-- cmd/mcpshield/main.go: how `serve` puts the parts together. The file system, the YAML decoder and
-- the environment variables are in `System`; the network and encoding/json in `Network`.
pub mod Parts
pub mod Guarded
pub mod Loaded
pub mod Started
pub mod Reload
pub mod Warmup
pub mod Commands
pub mod Probed
pub mod Tests
use mcpshield.Prelude.{
  ℕ, zero, suc, String, Option, none, some, List, [], ◌∷◌, Result, ok, err, ◌>>=◌,
}
use mcpshield.Mcp.{Json, Tool, ToolsCallResult}
use mcpshield.Config.{Config, UpstreamRuntimeConfig, ConfigError}
use mcpshield.Policy.Validator.{Matcher}
use mcpshield.Policy.Loader.{PolicyFile, PolicyError}
use mcpshield.Auth.{Digest, AuthConfigError, get_elem?}
use mcpshield.Audit.Open.{Environment, InitError}
use mcpshield.Transport.{HttpClient, RpcEnvelope, Decoding, TransportError, new_http_client}
use mcpshield.Transport.Calls.{HttpReply}
use mcpshield.Transport.Calls
use mcpshield.Upstream.{Client, Entry, ManagerError}
use mcpshield.Gateway.{ConfigError as GatewayError}

-- A `none` is an error.
pub record System : Type 0 where
  pub read_file : String → Option String
  pub expand_env : String → String
  pub decode_config : String → Option Config
  pub decode_policy : String → Option PolicyFile
  pub compile_re : String → Option Matcher
  pub decode_hex : String → Option Digest
  pub audit : Environment

pub record Network (N : Type 0) : Type 0 where
  pub post : HttpClient → RpcEnvelope → N → Result String HttpReply × N
  pub decode : ℕ → String → Decoding
  pub int64_of : Json → Option ℕ
  pub tools_of : Json → Option (List Tool)
  pub result_of : Json → Option ToolsCallResult
  pub describe : TransportError → String

pub data StartError : Type 0 where
  config_unreadable config_not_decoded policy_unreadable : StartError
  config_refused : ConfigError → StartError
  auth_refused : AuthConfigError → StartError
  policy_refused : PolicyError → StartError
  audit_refused : InitError → StartError
  client_refused : String → TransportError → StartError
  manager_refused : ManagerError → StartError
  gateway_refused : GatewayError → StartError
  server_refused : TransportError → StartError

-- The clients of the upstreams, in the order of the configuration, and the network.
pub record World (N : Type 0) : Type 0 where
  pub clients : List HttpClient
  pub net : N

abbrev pub set_at {ℓ} : {A : Type ℓ} → ℕ → A → List A → List A
set_at i y [] = []
set_at zero y (x ∷ xs) = y ∷ xs
set_at (suc i) y (x ∷ xs) = x ∷ set_at i y xs

-- `fmt.Errorf("…: %w", err)`
abbrev pub wrapped {ℓ κ μ} :
    {E : Type ℓ} {F : Type κ} {A : Type μ} → (E → F) → Result E A → Result F A
wrapped f (err e) = err (f e)
wrapped f (ok a) = ok a

abbrev pub or_failed {ℓ κ} : {E : Type ℓ} {A : Type κ} → E → Option A → Result E A
or_failed e none = err e
or_failed e (some a) = ok a

module _ {N : Type 0} (nw : Network N) where
  -- the i-th client does something
  abbrev pub with_client {ℓ} :
      {A : Type ℓ}
      → ℕ
      → (HttpClient → N → Result TransportError A × HttpClient × N)
      → World N
      → Result String A × World N
  with_client i act w = elim (get_elem? w.clients i) [
    | none ↦ (err "no such client", w)
    | some c ↦
        let (r, c', net) = act c w.net in
        (wrapped nw.describe r, record { clients = set_at i c' w.clients; net = net })
  ]

  -- the i-th `MCPHTTPClient` as an upstream's `Client`
  abbrev pub http_client : ℕ → Client (World N)
  http_client i = record {
    tools_list = with_client i (Calls.tools_list nw.int64_of nw.decode nw.post nw.tools_of);
    tools_call =
        λ req. with_client i (Calls.tools_call nw.int64_of nw.decode nw.post nw.result_of req);
  }

  -- `buildEntries`, from the upstream number `i` on
  unfoldable pub build_entries :
      ℕ → List UpstreamRuntimeConfig → Result StartError (List (Entry (World N)) × List HttpClient)
  build_entries i [] = ok ([], [])
  build_entries i (u ∷ us) = do
    c ←
        wrapped (client_refused u.id)
          (new_http_client u.id u.url u.headers u.request_timeout u.max_response_bytes)
    rest ← build_entries (suc i) us
    ok (
      record { id = u.id; tool_prefix = u.tool_prefix; client = http_client i } ∷ rest.0,
      c ∷ rest.1,
    )
