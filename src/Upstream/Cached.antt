-- ===== src/Upstream/Cached.antt =====
-- What the cache of internal/upstream/manager.go answers, and when it is refreshed.
use mcpshield.Prelude.{
  ℕ, ◌≤◌, String, true, false, Option, none, some, List, [], lookup, inl, inr, ◌↔◌, ◌≡◌, refl, sym,
  subst, ap, ◌∙◌, ◌≢◌, ◌⊎◌, map, Any, All, Option-cases, Result-cases, arith, Result, ok, err,
}
use mcpshield.Mcp.{Tool, ToolsCallRequest, ToolsCallResult}
use mcpshield.Metrics.{Registry}
use mcpshield.Upstream.{
  Route, ToolsCache, Manager, ManagerError, not_ready, unknown_tool, Called, done, failed, ready,
  call_failed, fetch_all, commit_refresh, do_refresh, get_cache, tools_list, route_call, tools_call,
}
use mcpshield.Upstream.Offers.{
  Offer, offered_name, offered_tool, offered_route, Gathered, Leads, last_route_lem,
}
use mcpshield.Upstream.Routes.{do_refresh-Merged}

-- What `ToolsCall` makes of the answer of an upstream.
abbrev pub answer_of : String → Result String ToolsCallResult → Called
answer_of id (ok result) = done id result
answer_of id (err cause) = failed (some id) (call_failed cause)

module _ {W : Type 0} where
  get_cache-none :
      (now : ℕ) (m : Manager W) → m.cached ≡ none → get_cache now m ≡ (err not_ready, false, m)
  unfolding get_cache
  get_cache-none now m absent = rw absent

  get_cache-some :
      (now : ℕ) (m : Manager W) (c : ToolsCache W) → m.cached ≡ some c → (get_cache now m).0 ≡ ok c
  unfolding get_cache
  get_cache-some now m c found = ground (arith, found)

  -- The gateway counts as ready just if the tool list can be had, fresh or stale.
  pub ready-tools_list_iff :
      (now : ℕ) (m : Manager W)
      → (ready m ≡ true) ↔ ((list : List Tool) × ((tools_list now m).0 ≡ ok list))
  unfolding ready tools_list
  ready-tools_list_iff now m = elim (Option-cases m.cached) [
    | inl absent ↦
        let g = get_cache-none now m absent in
        (λ h. absurd (ground (arith, absent, h)), λ (list, h). absurd (ground (arith, g, h)))
    | inr (c, found) ↦
        let g = get_cache-some now m c found in
        (λ h. (c.tools, ground (arith, g)), λ h. ground (arith, found))
  ]

  -- A background refresh is started only if none runs, and marks that one does; the cache is there
  -- and has expired.
  get_cache-started :
      (now : ℕ) (m : Manager W)
      → (get_cache now m).1 ≡ true
      → (m.bg_refresh ≡ false)
        × ((get_cache now m).2.bg_refresh ≡ true)
        × ((c : ToolsCache W) × ((m.cached ≡ some c) × c.expiry ≤ now))
  unfolding get_cache
  get_cache-started now m h = elim (Option-cases m.cached) [
    | inl absent ↦ absurd (ground (arith, absent, h))
    | inr (c, found) ↦
        (ground (arith, found, h), ground (arith, found, h), (c, (found, ground (arith, found, h))))
  ]

  commit_refresh-kept :
      (later : ℕ) (m : Manager W)
      (fetched : Result ManagerError (List Tool × List (String × Route W))) (reg : Option Registry)
      (e : ManagerError)
      → (commit_refresh later m fetched reg).0 ≡ err e
      → (commit_refresh later m fetched reg).1.cached ≡ m.cached
  unfolding commit_refresh
  commit_refresh-kept later m (err e') reg e h = refl
  commit_refresh-kept later m (ok (tools, routes)) reg e h = absurd (ground (arith, h))

  -- A refresh that fails, at whichever upstream, leaves the cache as it was.
  do_refresh-kept :
      (later : ℕ) (m : Manager W) (w : W) (e : ManagerError)
      → (do_refresh later m w).0 ≡ err e
      → (do_refresh later m w).1.cached ≡ m.cached
  unfolding do_refresh
  do_refresh-kept later m w e h =
      commit_refresh-kept later m (fetch_all m.entries [] [] m.metrics w).0
        (fetch_all m.entries [] [] m.metrics w).1 e h

  -- The call goes to the upstream of the offer, under the tool's own name, with the arguments as
  -- they are, and its answer comes back with the id of that upstream.
  pub record Sent (o : Offer W) (req : ToolsCallRequest) (w : W) (r : Called × W) : Type 0 where
    pub world :
        r.1 ≡ (o.0.client.tools_call (record { name = o.1.name; arguments = req.arguments }) w).1
    pub answer :
        r.0
        ≡ answer_of o.0.id
            (o.0.client.tools_call (record { name = o.1.name; arguments = req.arguments }) w).0

  -- What a call comes to where the upstreams offer these tools: one that has the name gets the call,
  -- or none has it and no upstream is reached.
  abbrev pub Delivered : List (Offer W) → ToolsCallRequest → W → Called × W → Type 0
  Delivered offers req w r =
      ((o : Offer W) × Any (λ x. x ≡ o) offers × (offered_name o ≡ req.name) × Sent o req w r)
      ⊎ (All (λ o. offered_name o ≢ req.name) offers
          × (r ≡ (failed none (unknown_tool req.name), w)))

  route_call-Sent :
      (c : ToolsCache W) (req : ToolsCallRequest) (w : W) (o : Offer W)
      → lookup req.name c.route_map ≡ some (offered_route o)
      → Sent o req w (route_call c req w)
  unfolding route_call
  route_call-Sent c req w o found =
      let r = (o.0.client.tools_call (record { name = o.1.name; arguments = req.arguments }) w).0 in
      elim (Result-cases r) [
        | inl (result, good) ↦ record {
          world = ground (arith, found);
          answer = ground (arith, found, good);
        }
        | inr (cause, bad) ↦ record {
          world = ground (arith, found);
          answer = ground (arith, found, bad);
        }
      ]

  route_call-Delivered :
      (c : ToolsCache W) (req : ToolsCallRequest) (w : W) (offers : List (Offer W))
      → Leads req.name offers (lookup req.name c.route_map)
      → Delivered offers req w (route_call c req w)
  unfolding route_call
  route_call-Delivered c req w offers (inl (o, offered, named, found)) =
      inl (o, offered, named, route_call-Sent c req w o found)
  route_call-Delivered c req w offers (inr (others, absent)) =
      inr (others, rw (route_call, absent) refl)

  tools_call-route_call :
      (now : ℕ) (m : Manager W) (req : ToolsCallRequest) (w : W) (c : ToolsCache W)
      → m.cached ≡ some c
      → ((tools_call now m req w).0, (tools_call now m req w).3) ≡ route_call c req w
  unfolding tools_call
  tools_call-route_call now m req w c found =
      let g = get_cache-some now m c found in ground (arith, g)

  tools_list-some :
      (now : ℕ) (m : Manager W) (c : ToolsCache W)
      → m.cached ≡ some c
      → (tools_list now m).0 ≡ ok c.tools
  unfolding tools_list
  tools_list-some now m c found = let g = get_cache-some now m c found in ground (arith, g)

  -- After a refresh that succeeded, at any later time, the tools shown are those that the upstreams
  -- listed in it, and a call goes to an upstream that listed the tool of its name, under the tool's
  -- own name and with the arguments as they are; its answer comes back with that upstream's id. A
  -- call of a name that no upstream offered reaches none.
  pub tools_call-Delivered :
      (later : ℕ) (m : Manager W) (before : W) (c : ToolsCache W)
      → (do_refresh later m before).0 ≡ ok c
      → (now : ℕ) (req : ToolsCallRequest) (w : W)
      → let m' = (do_refresh later m before).1 in
        (offers : List (Offer W)) × Gathered m.entries before offers
        × ((tools_list now m').0 ≡ ok (map offered_tool offers))
        × Delivered offers req w ((tools_call now m' req w).0, (tools_call now m' req w).3)
  tools_call-Delivered later m before c refreshed now req w =
      let (merged, cached) = do_refresh-Merged later m before c refreshed in
      let m' = (do_refresh later m before).1 in
      (
        merged.offers,
        merged.gathered,
        tools_list-some now m' c cached ∙ ap ok merged.listed,
        subst (Delivered merged.offers req w) (sym (tools_call-route_call now m' req w c cached)) (
            route_call-Delivered c req w merged.offers (
              subst (Leads req.name merged.offers) (sym (merged.routed req.name))
                (last_route_lem req.name merged.offers))),
      )
