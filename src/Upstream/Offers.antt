-- ===== src/Upstream/Offers.antt =====
-- What the upstreams of internal/upstream/manager.go offer, and the routes that it makes.
use mcpshield.Prelude.{
  String, ◌≡◌, ◌≢◌, refl, ◌∙◌, inl, inr, ◌⊎◌, Option, none, some, List, [], ◌∷◌, ◌++◌, map, ◌==◌,
  eq_iff, arith, ok, Any, All, Bool-cases, if◌then◌else◌,
}
use mcpshield.Mcp.{Tool}
use mcpshield.Upstream.{Entry, Route, prefixed, listed_tool, route_to}

-- An upstream and a tool that it listed.
abbrev pub Offer : Type 0 → Type 0
Offer W = Entry W × Tool

module _ {W : Type 0} where
  -- the name of an offer, its tool as the gateway shows it, and its route
  abbrev pub offered_name : Offer W → String
  offered_name o = prefixed o.0.tool_prefix o.1.name

  abbrev pub offered_tool : Offer W → Tool
  offered_tool o = listed_tool o.0 o.1

  abbrev pub offered_route : Offer W → Route W
  offered_route o = route_to o.0 o.1

  abbrev pub offers_of : Entry W → List Tool → List (Offer W)
  offers_of e = map (λ t. (e, t))

  -- The upstreams, asked for their tools one after the other, listed these, in order.
  pub data Gathered : List (Entry W) → W → List (Offer W) → Type 0 where
    nothing : (w : W) → Gathered [] w []
    answered :
        (e : Entry W) (es : List (Entry W)) (w : W) (list : List Tool) (offers : List (Offer W))
        → (e.client.tools_list w).0 ≡ ok list
        → Gathered es (e.client.tools_list w).1 offers
        → Gathered (e ∷ es) w (offers_of e list ++ offers)

  -- The route of the last offer with the name, or what there was.
  abbrev pub last_route : String → List (Offer W) → Option (Route W) → Option (Route W)
  last_route name [] old = old
  last_route name (o ∷ os) old =
      last_route name os (if offered_name o == name then some (offered_route o) else old)

  pub last_route-append :
      (name : String) (xs ys : List (Offer W)) (old : Option (Route W))
      → last_route name (xs ++ ys) old ≡ last_route name ys (last_route name xs old)
  last_route-append name [] ys old = refl
  last_route-append name (x ∷ xs) ys old = last_route-append name xs ys _

  -- the route is one of an offer with the name, or none of the offers has it
  abbrev pub Leads : String → List (Offer W) → Option (Route W) → Type 0
  Leads name os r =
      ((o : Offer W) × Any (λ x. x ≡ o) os × (offered_name o ≡ name) × (r ≡ some (offered_route o)))
      ⊎ (All (λ o. offered_name o ≢ name) os × (r ≡ none))

  last_route-Leads :
      (name : String) (os : List (Offer W)) (old : Option (Route W))
      → ((o : Offer W) × Any (λ x. x ≡ o) os
          × (offered_name o ≡ name)
          × (last_route name os old ≡ some (offered_route o)))
        ⊎ (All (λ o. offered_name o ≢ name) os × (last_route name os old ≡ old))
  last_route-Leads name [] old = inr (tt, refl)
  last_route-Leads name (o ∷ os) old =
      let new = if offered_name o == name then some (offered_route o) else old in
      elim (last_route-Leads name os new) [
        | inl (x, found, mine, same) ↦ inl (x, inr found, mine, same)
        | inr (others, same) ↦ elim (Bool-cases (offered_name o == name)) [
          | inl this ↦ inl (o, inl refl, (eq_iff (offered_name o) name).0 this, same ∙ rw this refl)
          | inr other ↦ inr (
            (λ e. absurd (ground (arith, other, (eq_iff (offered_name o) name).1 e)), others),
            same ∙ rw other refl,
          )
        ]
      ]

  pub last_route_lem :
      (name : String) (os : List (Offer W)) → Leads name os (last_route name os none)
  last_route_lem name os = last_route-Leads name os none
