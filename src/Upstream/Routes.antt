-- ===== src/Upstream/Routes.antt =====
-- What a refresh of internal/upstream/manager.go lists and routes.
use mcpshield.Prelude.{
  ℕ, String, ◌≡◌, refl, sym, ◌∙◌, ap, subst, ok_injective, inl, inr, Option, none, some, List, [],
  ◌∷◌, ◌++◌, map, append-nil, lookup, insert, lookup-insert, arith, Result, ok, err, Result-cases,
}
use mathlib.Core.List.{append_assoc, map-append}
use mcpshield.Mcp.{Tool}
use mcpshield.Metrics.{Registry, update, tools_refresh_fail}
use mcpshield.Upstream.{
  Entry, Route, ToolsCache, Manager, ManagerError, prefixed, listed_tool, route_to, add_tools,
  fetch_all, commit_refresh, do_refresh, tools_list_failed,
}
use mcpshield.Upstream.Offers.{
  Offer, offered_tool, offers_of, Gathered, nothing, answered, last_route, last_route-append,
}

module _ {W : Type 0} where
  add_tools-tools :
      (e : Entry W) (ts tools : List Tool) (routes : List (String × Route W))
      → (add_tools e ts tools routes).0 ≡ tools ++ map offered_tool (offers_of e ts)
  unfolding add_tools
  add_tools-tools e [] tools routes = sym (append-nil tools)
  add_tools-tools e (t ∷ ts) tools routes =
      add_tools-tools e ts (tools ++ listed_tool e t ∷ []) _
      ∙ append_assoc tools (listed_tool e t ∷ []) (map offered_tool (offers_of e ts))

  add_tools-routes :
      (e : Entry W) (ts tools : List Tool) (routes : List (String × Route W)) (name : String)
      → lookup name (add_tools e ts tools routes).1
        ≡ last_route name (offers_of e ts) (lookup name routes)
  unfolding add_tools
  add_tools-routes e [] tools routes name = refl
  add_tools-routes e (t ∷ ts) tools routes name =
      add_tools-routes e ts (tools ++ listed_tool e t ∷ [])
        (insert (prefixed e.tool_prefix t.name) (route_to e t) routes) name
      ∙ ap (last_route name (offers_of e ts))
          (lookup-insert (prefixed e.tool_prefix t.name) name (route_to e t) routes)

  -- one upstream of the loop
  fetch_all-listed :
      (e : Entry W) (es : List (Entry W)) (tools : List Tool) (routes : List (String × Route W))
      (reg : Option Registry) (w : W) (list : List Tool)
      → (e.client.tools_list w).0 ≡ ok list
      → fetch_all (e ∷ es) tools routes reg w
        ≡ fetch_all es
            (add_tools e list tools routes).0
            (add_tools e list tools routes).1
            reg
            (e.client.tools_list w).1
  unfolding fetch_all
  fetch_all-listed e es tools routes reg w list h = rw h

  pub fetch_all-refused :
      (e : Entry W) (es : List (Entry W)) (tools : List Tool) (routes : List (String × Route W))
      (reg : Option Registry) (w : W) (cause : String)
      → (e.client.tools_list w).0 ≡ err cause
      → fetch_all (e ∷ es) tools routes reg w ≡ (
        err (tools_list_failed e.id cause),
        update (tools_refresh_fail e.id) reg,
        (e.client.tools_list w).1,
      )
  unfolding fetch_all
  fetch_all-refused e es tools routes reg w cause h = rw h

  -- The list and the routes are those of what the upstreams offered, on top of what there was.
  record Adds (es : List (Entry W)) (w : W) (tools : List Tool) (routes : List (String × Route W))
      (tools' : List Tool) (routes' : List (String × Route W)) : Type 0 where
    pub offers : List (Offer W)
    pub gathered : Gathered es w offers
    pub listed : tools' ≡ tools ++ map offered_tool offers
    pub routed : (name : String) → lookup name routes' ≡ last_route name offers (lookup name routes)

  Adds-cons :
      (e : Entry W) (es : List (Entry W)) (w : W) (list tools : List Tool)
      (routes : List (String × Route W)) {tools' : List Tool} {routes' : List (String × Route W)}
      → (e.client.tools_list w).0 ≡ ok list
      → Adds es
          (e.client.tools_list w).1
          (add_tools e list tools routes).0
          (add_tools e list tools routes).1
          tools'
          routes'
      → Adds (e ∷ es) w tools routes tools' routes'
  Adds-cons e es w list tools routes good a = record {
    offers = offers_of e list ++ a.offers;
    gathered = answered e es w list a.offers good a.gathered;
    listed =
        a.listed
        ∙ ap (λ xs. xs ++ map offered_tool a.offers) (add_tools-tools e list tools routes)
        ∙ append_assoc tools (map offered_tool (offers_of e list)) (map offered_tool a.offers)
        ∙ ap (◌++◌ tools) (sym (map-append offered_tool (offers_of e list) a.offers));
    routed = λ name.
        a.routed name
        ∙ ap (last_route name a.offers) (add_tools-routes e list tools routes name)
        ∙ sym (last_route-append name (offers_of e list) a.offers (lookup name routes));
  }

  fetch_all-Adds :
      (es : List (Entry W)) (tools : List Tool) (routes : List (String × Route W))
      (reg : Option Registry) (w : W) (tools' : List Tool) (routes' : List (String × Route W))
      → (fetch_all es tools routes reg w).0 ≡ ok (tools', routes')
      → Adds es w tools routes tools' routes'
  fetch_all-Adds [] tools routes reg w tools' routes' h =
      let e : ◌≡◌ {A = List Tool × List (String × Route W)} (tools, routes) (tools', routes') =
        ok_injective {E = ManagerError} (unfold fetch_all in h) in
      subst (λ (p : List Tool × List (String × Route W)). Adds [] w tools routes p.0 p.1) e
        (record {
          offers = [];
          gathered = nothing w;
          listed = sym (append-nil tools);
          routed = λ name. refl;
        })
  fetch_all-Adds (e ∷ es) tools routes reg w tools' routes' h =
      elim (Result-cases (e.client.tools_list w).0) [
        | inr (cause, bad) ↦
            absurd (ground (arith, fetch_all-refused e es tools routes reg w cause bad))
        | inl (list, good) ↦ Adds-cons e es w list tools routes good (
            fetch_all-Adds es (add_tools e list tools routes).0 (add_tools e list tools routes).1
              reg (e.client.tools_list w).1 tools' routes'
              (ap
                  (λ (o : Result ManagerError (List Tool × List (String × Route W))
                      × Option Registry
                      × W).
                    o.0)
                  (sym (fetch_all-listed e es tools routes reg w list good))
                ∙ h))
      ]

  -- What a refresh makes of the tools that the upstreams list: it shows each, in order, under its
  -- prefixed name, and routes a name to the last upstream and tool that has it.
  pub record Merged (es : List (Entry W)) (w : W) (c : ToolsCache W) : Type 0 where
    pub offers : List (Offer W)
    pub gathered : Gathered es w offers
    pub listed : c.tools ≡ map offered_tool offers
    pub routed : (name : String) → lookup name c.route_map ≡ last_route name offers none

  Adds-Merged :
      (es : List (Entry W)) (w : W) (c : ToolsCache W)
      → Adds es w [] [] c.tools c.route_map
      → Merged es w c
  Adds-Merged es w c a = record {
    offers = a.offers;
    gathered = a.gathered;
    listed = a.listed;
    routed = a.routed;
  }

  commit_refresh-Merged :
      (later : ℕ) (m : Manager W) (w : W)
      (fetched : Result ManagerError (List Tool × List (String × Route W))) (reg : Option Registry)
      (c : ToolsCache W)
      → ((tools : List Tool) (routes : List (String × Route W))
          → fetched ≡ ok (tools, routes)
          → Adds m.entries w [] [] tools routes)
      → (commit_refresh later m fetched reg).0 ≡ ok c
      → Merged m.entries w c × ((commit_refresh later m fetched reg).1.cached ≡ some c)
  unfolding commit_refresh
  commit_refresh-Merged later m w (err e) reg c f h = absurd (ground arith)
  commit_refresh-Merged later m w (ok (tools, routes)) reg c f h =
      let e = ok_injective h in
      (
        subst (λ (x : ToolsCache W). Merged m.entries w x) e
            (Adds-Merged m.entries w _ (f tools routes refl)),
        ap some e,
      )

  pub do_refresh-Merged :
      (later : ℕ) (m : Manager W) (w : W) (c : ToolsCache W)
      → (do_refresh later m w).0 ≡ ok c
      → Merged m.entries w c × ((do_refresh later m w).1.cached ≡ some c)
  unfolding do_refresh
  do_refresh-Merged later m w c h =
      commit_refresh-Merged later m w (fetch_all m.entries [] [] m.metrics w).0
        (fetch_all m.entries [] [] m.metrics w).1 c
        (λ tools routes good. fetch_all-Adds m.entries [] [] m.metrics w tools routes good) h
