-- ===== src/Upstream.antt =====
-- internal/upstream/manager.go: the merged tool cache over the upstream servers. What the network
-- does is a state `W` that the clients' operations change; a clock reading is an argument.
pub mod Offers
pub mod Routes
pub mod Cached
pub mod Flight
pub mod Stub
pub mod Tests
use Prim.Native.String
use mcpshield.Prelude.{
  ℕ, ◌+◌, String, Bool, true, false, not, Option, none, some, List, [], ◌∷◌, ◌++◌, lookup, insert,
  ltb, if◌then◌else◌, Result, ok, err, ◌>>=◌, ℤ, is_pos, pos_part, is_empty,
}
use mcpshield.Mcp.{str, obj, end, Object, Tool, ToolsCallRequest, ToolsCallResult}
use mcpshield.Metrics.{Registry, tools_refresh_fail, update}

-- The interface of `transport.MCPHTTPClient`; an error is its message.
pub record Client (W : Type 0) : Type 0 where
  pub tools_list : W → Result String (List Tool) × W
  pub tools_call : ToolsCallRequest → W → Result String ToolsCallResult × W

pub record Entry (W : Type 0) : Type 0 where
  pub id : String
  pub tool_prefix : String
  pub client : Client W

pub record Route (W : Type 0) : Type 0 where
  pub upstream_id : String
  pub client : Client W
  pub original_name : String

pub record ToolsCache (W : Type 0) : Type 0 where
  pub tools : List Tool
  pub route_map : List (String × Route W)
  pub expiry : ℕ

-- `loading` is whether a first load is in progress, `bg_refresh` whether a background refresh is.
pub record Manager (W : Type 0) : Type 0 where
  pub entries : List (Entry W)
  pub cache_ttl : ℕ
  pub refresh_timeout : ℕ
  pub cached : Option (ToolsCache W)
  pub loading : Bool
  pub bg_refresh : Bool
  pub metrics : Option Registry

pub data ManagerError : Type 0 where
  bad_cache_ttl bad_refresh_timeout not_ready : ManagerError
  unknown_tool : String → ManagerError
  tools_list_failed : String → String → ManagerError
  call_failed : String → ManagerError

-- What `ToolsCall` returns: a result with the id of its upstream, or an error with the id if the
-- call was routed.
pub data Called : Type 0 where
  done : String → ToolsCallResult → Called
  failed : Option String → ManagerError → Called

abbrev pub default_input_schema : Object
default_input_schema = ("type", str "object") ∷ ("properties", obj end) ∷ []

-- `entry.Prefix + "." + t.Name`
abbrev pub prefixed : String → String → String
prefixed p name = String.◌++◌ p (String.◌++◌ "." name)

module _ {W : Type 0} where
  -- `NewManager` with `validateManagerConfig`
  unfoldable pub new_manager : List (Entry W) → ℤ → ℤ → Result ManagerError (Manager W)
  new_manager entries ttl timeout =
      if not (is_pos ttl)
      then err bad_cache_ttl
      else if not (is_pos timeout)
      then err bad_refresh_timeout
      else ok (record {
        entries = entries;
        cache_ttl = pos_part ttl;
        refresh_timeout = pos_part timeout;
        cached = none;
        loading = false;
        bg_refresh = false;
        metrics = none;
      })

  unfoldable pub invalidate_cache : Manager W → Manager W
  invalidate_cache m = record m { cached = none }

  unfoldable pub ready : Manager W → Bool
  ready m = elim m.cached [ none ↦ false | some c ↦ true ]

  -- the body of the loop over one upstream's tools
  abbrev pub listed_tool : Entry W → Tool → Tool
  listed_tool e t = record {
    name = prefixed e.tool_prefix t.name;
    description = t.description;
    input_schema = if is_empty t.input_schema then default_input_schema else t.input_schema;
  }

  abbrev pub route_to : Entry W → Tool → Route W
  route_to e t = record { upstream_id = e.id; client = e.client; original_name = t.name }

  unfoldable pub add_tools :
      Entry W
      → List Tool
      → List Tool
      → List (String × Route W)
      → List Tool × List (String × Route W)
  add_tools e [] tools routes = (tools, routes)
  add_tools e (t ∷ ts) tools routes =
      add_tools e ts (tools ++ listed_tool e t ∷ [])
        (insert (prefixed e.tool_prefix t.name) (route_to e t) routes)

  -- the loop over the upstreams; the state of the metrics goes along
  unfoldable pub fetch_all :
      List (Entry W)
      → List Tool
      → List (String × Route W)
      → Option Registry
      → W
      → Result ManagerError (List Tool × List (String × Route W)) × Option Registry × W
  fetch_all [] tools routes reg w = (ok (tools, routes), reg, w)
  fetch_all (e ∷ es) tools routes reg w =
      let (listed, w') = e.client.tools_list w in
      elim listed [
        | err cause ↦ (err (tools_list_failed e.id cause), update (tools_refresh_fail e.id) reg, w')
        | ok list ↦
            let (tools', routes') = add_tools e list tools routes in
            fetch_all es tools' routes' reg w'
      ]

  -- `doRefresh` from the result of the loop on. A failure leaves the cache as it was.
  unfoldable pub commit_refresh :
      ℕ
      → Manager W
      → Result ManagerError (List Tool × List (String × Route W))
      → Option Registry
      → Result ManagerError (ToolsCache W) × Manager W
  commit_refresh later m (err e) reg = (err e, record m { metrics = reg })
  commit_refresh later m (ok (tools, routes)) reg =
      let c : ToolsCache W = record {
        tools = tools;
        route_map = routes;
        expiry = later + m.cache_ttl;
      } in
      (ok c, record m { cached = some c; metrics = reg })

  -- `doRefresh`; `later` is the clock after the fetch
  unfoldable pub do_refresh : ℕ → Manager W → W → Result ManagerError (ToolsCache W) × Manager W × W
  unfolding fetch_all add_tools commit_refresh
  do_refresh later m w =
      let (fetched, reg, w') = fetch_all m.entries [] [] m.metrics w in
      let (r, m') = commit_refresh later m fetched reg in (r, m', w')

  -- `Warmup` up to its network part: `none` if there is nothing to do or another load is waited for
  unfoldable pub warmup_begin : Manager W → Option (Manager W)
  warmup_begin m = elim m.cached [
    | some c ↦ none
    | none ↦ if m.loading then none else some (record m { loading = true })
  ]

  -- `Warmup` from the refresh on
  unfoldable pub warmup_end : ℕ → Manager W → W → Result ManagerError (Unit {0}) × Manager W × W
  unfolding do_refresh
  warmup_end later m w =
      let (r, m', w') = do_refresh later m w in
      ((r >>= λ c. ok tt), record m' { loading = false }, w')

  -- `Warmup` once the load that it waited for is over
  unfoldable pub warmup_waited : Manager W → Result ManagerError (Unit {0})
  warmup_waited m = elim m.cached [ some c ↦ ok tt | none ↦ err not_ready ]

  -- `getCache`: the cache, whether a background refresh is started, and the manager with its mark
  unfoldable pub get_cache : ℕ → Manager W → Result ManagerError (ToolsCache W) × Bool × Manager W
  get_cache now m = elim m.cached [
    | none ↦ (err not_ready, false, m)
    | some c ↦
        if ltb now c.expiry
        then (ok c, false, m)
        else (ok c, not m.bg_refresh, record m { bg_refresh = true })
  ]

  -- the goroutine that `getCache` starts
  unfoldable pub bg_run : ℕ → Manager W → W → Manager W × W
  unfolding do_refresh
  bg_run later m w =
      let (r, m', w') = do_refresh later m w in (record m' { bg_refresh = false }, w')

  unfoldable pub tools_list : ℕ → Manager W → Result ManagerError (List Tool) × Bool × Manager W
  unfolding get_cache
  tools_list now m =
      let (r, started, m') = get_cache now m in ((r >>= λ c. ok c.tools), started, m')

  -- the request that goes to the upstream
  abbrev pub upstream_request : Route W → ToolsCallRequest → ToolsCallRequest
  upstream_request route req = record { name = route.original_name; arguments = req.arguments }

  -- `ToolsCall` with the cache at hand
  unfoldable pub route_call : ToolsCache W → ToolsCallRequest → W → Called × W
  route_call c req w = elim (lookup req.name c.route_map) [
    | none ↦ (failed none (unknown_tool req.name), w)
    | some route ↦
        let (r, w') = route.client.tools_call (upstream_request route req) w in
        (
          elim r [
            | err cause ↦ failed (some route.upstream_id) (call_failed cause)
            | ok result ↦ done route.upstream_id result
          ],
          w',
        )
  ]

  unfoldable pub tools_call : ℕ → Manager W → ToolsCallRequest → W → Called × Bool × Manager W × W
  unfolding get_cache route_call
  tools_call now m req w =
      let (r, started, m') = get_cache now m in
      elim r [
        | err e ↦ (failed none e, started, m', w)
        | ok c ↦ let (called, w') = route_call c req w in (called, started, m', w')
      ]
