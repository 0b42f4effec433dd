-- ===== src/Upstream/Tests.antt =====
-- A concrete manager with one upstream, whose state counts the requests that it got.
use mcpshield.Prelude.{
  ℕ, ◌≤◌, ◌↔◌, suc, true, false, Option, none, some, List, [], ◌∷◌, map, ◌≡◌, refl, ok, err,
}
use mcpshield.Mcp.{Tool, ToolsCallRequest}
use mcpshield.Upstream.{
  Client, Entry, ToolsCache, Manager, tools_list_failed, add_tools, fetch_all, commit_refresh,
  do_refresh, get_cache, bg_run, tools_list, tools_call, listed_tool, route_to,
}
use mcpshield.Upstream.Flight.{
  Shared, Steps, read, refreshed, start, then_step, at_rest, Steps-single,
}
use mcpshield.Upstream.Offers.{Offer, offered_tool, Gathered}
use mcpshield.Upstream.Cached.{Delivered, tools_call-Delivered}

abbrev pub read_tool : Tool
read_tool = record { name = "read"; description = "reads"; input_schema = [] }

abbrev pub counting : Client ℕ
counting = record {
  tools_list = λ n. (ok (read_tool ∷ []), suc n);
  tools_call = λ req n. (ok (record { content = [] }), suc n);
}

abbrev pub refusing : Client ℕ
refusing = record {
  tools_list = λ n. (err "refused", suc n);
  tools_call = λ req n. (err "refused", suc n);
}

abbrev pub fs_entry : Entry ℕ
fs_entry = record { id = "files"; tool_prefix = "fs"; client = counting }

abbrev pub down_entry : Entry ℕ
down_entry = record { id = "down"; tool_prefix = "dn"; client = refusing }

abbrev pub managing : List (Entry ℕ) → Option (ToolsCache ℕ) → Manager ℕ
managing entries cached = record {
  entries = entries;
  cache_ttl = 10;
  refresh_timeout = 5;
  cached = cached;
  loading = false;
  bg_refresh = false;
  metrics = none;
}

abbrev pub fs_cache : ToolsCache ℕ
fs_cache = record {
  tools = listed_tool fs_entry read_tool ∷ [];
  route_map = ("fs.read", route_to fs_entry read_tool) ∷ [];
  expiry = 17;
}

fs_refreshed : (do_refresh 7 (managing (fs_entry ∷ []) none) 0).0 ≡ ok fs_cache
unfolding do_refresh commit_refresh fetch_all add_tools
fs_refreshed = refl

abbrev both : Manager ℕ
both = managing (fs_entry ∷ down_entry ∷ []) (some fs_cache)

both_refused : (do_refresh 20 both 0).0 ≡ err (tools_list_failed "down" "refused")
unfolding do_refresh commit_refresh fetch_all add_tools
both_refused = refl

both_started : (get_cache 30 both).1 ≡ true
unfolding get_cache
both_started = refl

abbrev read_call : ToolsCallRequest
read_call = record { name = "fs.read"; arguments = [] }

tools_call-Delivered_example :
    let m = (do_refresh 7 (managing (fs_entry ∷ []) none) 0).1 in
    (offers : List (Offer ℕ)) × Gathered (fs_entry ∷ []) 0 offers
    × ((tools_list 30 m).0 ≡ ok (map offered_tool offers))
    × Delivered offers read_call 5
        ((tools_call 30 m read_call 5).0, (tools_call 30 m read_call 5).3)
tools_call-Delivered_example =
    tools_call-Delivered 7 (managing (fs_entry ∷ []) none) 0 fs_cache fs_refreshed 30 read_call 5

abbrev stale : Manager ℕ
stale = managing (fs_entry ∷ []) (some fs_cache)

abbrev read_once : Shared ℕ
read_once = record {
  manager = record stale { bg_refresh = true };
  world = 0;
  refreshes = 1;
  loads = 0;
}

-- two reads of an expired cache start one refresh
read_twice : Steps (at_rest stale 0) read_once
unfolding get_cache
read_twice =
    then_step (then_step (start (at_rest stale 0)) (read (at_rest stale 0) 30)) (read read_once 31)

abbrev refreshed_once : Shared ℕ
refreshed_once = record {
  manager = (bg_run 40 read_once.manager 0).0;
  world = (bg_run 40 read_once.manager 0).1;
  refreshes = 0;
  loads = 0;
}

read_refreshed : Steps (at_rest stale 0) refreshed_once
read_refreshed = then_step read_twice (refreshed read_once 40 0 refl)

Steps-single_example :
    (refreshed_once.refreshes ≤ 1)
    × ((refreshed_once.loads ≤ 1)
        × (((refreshed_once.refreshes ≡ 1) ↔ (refreshed_once.manager.bg_refresh ≡ true))
            × ((refreshed_once.loads ≡ 1) ↔ (refreshed_once.manager.loading ≡ true))))
Steps-single_example = Steps-single stale 0 read_refreshed refl refl
