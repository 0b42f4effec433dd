-- ===== src/Gateway/Handlers/Lists.antt =====
-- What `handleToolsList` of internal/gateway/gateway.go shows.
use mcpshield.Prelude.{
  String, Bool, true, Option, some, List, [], ◌∷◌, inl, inr, ◌↔◌, ◌≡◌, refl, sym, subst,
  if◌then◌else◌, Bool-cases, Any, arith, ◌-◌, Result, ok, err,
}
use mcpshield.Mcp.{Json, Request, Tool}
use mcpshield.Upstream.{ManagerError}
use mcpshield.Gateway.{Payload, tools, result, Gateway}
use mcpshield.Gateway.Events.{Clock, base_event}
use mcpshield.Gateway.Handlers.{Services, allowed_tools, logged, tools_listed, handle_tools_list}

allowed_tools-kept :
    (allow : String → Bool) (t : Tool) (list : List Tool)
    → Any (λ x. x ≡ t) (allowed_tools allow list)
    → Any (λ x. x ≡ t) list × (allow t.name ≡ true)
unfolding allowed_tools
allowed_tools-kept allow t [] m = absurd m
allowed_tools-kept allow t (x ∷ rest) m = elim (Bool-cases (allow x.name)) [
  | inl yes_ ↦
      let m' : Any (λ y. y ≡ t) (x ∷ allowed_tools allow rest) =
        subst
          (λ b.
            Any (λ y. y ≡ t) (if b then x ∷ allowed_tools allow rest else allowed_tools allow rest))
          yes_ m in
      elim m' [
        | inl e ↦ (inl e, subst (λ (y : Tool). allow y.name ≡ true) e yes_)
        | inr k ↦ let (a, b) = allowed_tools-kept allow t rest k in (inr a, b)
      ]
  | inr no_ ↦
      let m' : Any (λ y. y ≡ t) (allowed_tools allow rest) =
        subst
          (λ b.
            Any (λ y. y ≡ t) (if b then x ∷ allowed_tools allow rest else allowed_tools allow rest))
          no_ m in
      let (a, b) = allowed_tools-kept allow t rest m' in (inr a, b)
]

allowed_tools-shown :
    (allow : String → Bool) (t : Tool) (list : List Tool)
    → Any (λ x. x ≡ t) list
    → allow t.name ≡ true
    → Any (λ x. x ≡ t) (allowed_tools allow list)
unfolding allowed_tools
allowed_tools-shown allow t [] m ok_ = m
allowed_tools-shown allow t (x ∷ rest) (inl e) ok_ =
    let good : allow x.name ≡ true = subst (λ (y : Tool). allow y.name ≡ true) (sym e) ok_ in
    subst
      (λ b. Any (λ y. y ≡ t) (if b then x ∷ allowed_tools allow rest else allowed_tools allow rest))
      (sym good) (inl e)
allowed_tools-shown allow t (x ∷ rest) (inr m) ok_ =
    let tail = allowed_tools-shown allow t rest m ok_ in
    elim (Bool-cases (allow x.name)) [
      | inl yes_ ↦
          subst
            (λ b.
              Any (λ y. y ≡ t)
                (if b then x ∷ allowed_tools allow rest else allowed_tools allow rest))
            (sym yes_) (inr tail)
      | inr no_ ↦
          subst
            (λ b.
              Any (λ y. y ≡ t)
                (if b then x ∷ allowed_tools allow rest else allowed_tools allow rest))
            (sym no_) tail
    ]

module _ {P U A : Type 0} (srv : Services P U A) where
  -- Why a listing has the result `p`: it holds the tools that the upstreams list and the policy
  -- allows, and `Log` of the event with it returned nil.
  pub record Shows (clk : Clock) (req : Request) (client sid : String) (g : Gateway P U A)
      (p : Payload) : Type 0 where
    pub offered : List Tool
    pub listed : (srv.upstream.tools_list clk.started g.upstream).0 ≡ ok offered
    pub shown : List Tool
    pub payload : p ≡ tools shown
    pub filtered :
        (t : Tool)
        → Any (λ x. x ≡ t) shown
          ↔ (Any (λ x. x ≡ t) offered × (srv.policy.is_tool_allowed g.policy t.name ≡ true))
    pub logged_nil :
        (srv.audit.log
          (record (base_event clk.stamped req client sid) {
            action = "tools/list";
            duration = clk.ended - clk.started;
            response = some p;
          })
          g.audit).0
        ≡ true

  tools_listed-Shows :
      (clk : Clock) (req : Request) (client sid : String) (answer : Result ManagerError (List Tool))
      (g : Gateway P U A) (id : Option Json) (p : Payload)
      → (srv.upstream.tools_list clk.started g.upstream).0 ≡ answer
      → (tools_listed srv clk req client sid answer
          (record g { upstream = (srv.upstream.tools_list clk.started g.upstream).1 })).0.body
        ≡ result id p
      → Shows clk req client sid g p
  unfolding tools_listed logged
  tools_listed-Shows clk req client sid (err e) g id p a h = absurd (ground (arith, h))
  tools_listed-Shows clk req client sid (ok list) g id p a h =
      let shown = allowed_tools (srv.policy.is_tool_allowed g.policy) list in
      let payload : p ≡ tools shown = ground (arith, h) in
      record {
        offered = list;
        listed = a;
        shown = shown;
        payload = payload;
        filtered = λ t. (
          allowed_tools-kept (srv.policy.is_tool_allowed g.policy) t list,
          λ m. allowed_tools-shown (srv.policy.is_tool_allowed g.policy) t list m.0 m.1,
        );
        logged_nil =
            subst
              (λ q.
                (srv.audit.log
                  (record (base_event clk.stamped req client sid) {
                    action = "tools/list";
                    duration = clk.ended - clk.started;
                    response = some q;
                  })
                  g.audit).0
                ≡ true)
              (sym payload) (ground (arith, h));
      }

  -- A listing has a result only if the upstreams' list is at hand; the tools it holds are those of
  -- the list that the policy allows, and `Log` of the event that holds it returned nil, which in some
  -- write modes it does of an event that it drops.
  pub handle_tools_list-Shows :
      (clk : Clock) (req : Request) (client sid : String) (g : Gateway P U A) (id : Option Json)
      (p : Payload)
      → (handle_tools_list srv clk req client sid g).0.body ≡ result id p
      → Shows clk req client sid g p
  unfolding handle_tools_list
  handle_tools_list-Shows clk req client sid g id p h =
      tools_listed-Shows clk req client sid (srv.upstream.tools_list clk.started g.upstream).0 g id
        p refl h
