-- ===== src/Gateway/Sessions/Ownership.antt =====
-- Who may use a session, and for how long (internal/gateway/gateway.go).
use mcpshield.Prelude.{
  ℕ, ◌<◌, String, ◌≡◌, ◌∙◌, ap, ◌↔◌, inl, inr, true, false, none, some, lookup, leb→lt, ◌==◌,
  eq_iff, arith, Bool-cases, Option-cases, Result, ok, err,
}
use mcpshield.Gateway.Sessions.{
  Binding, Sessions, SessionError, is_expired, lookup_session, check_owner, record_reject,
  resolve_session, wrong_client, unknown_session,
}
use mcpshield.Gateway.Sessions.Invariant.{
  lookup_session-missing, lookup_session-expired, lookup_session-live, refreshed,
}

-- The session is bound to the client and has not expired.
pub record Owns (client id : String) (now : ℕ) (g : Sessions) : Type 0 where
  pub binding : Binding
  pub bound : lookup id g.clients ≡ some binding
  pub same : binding.client_id ≡ client
  pub alive : now < binding.expires_at

module _ (requested client : String) (now : ℕ) (g : Sessions) where
  resolve-check_owner :
      (requested == "") ≡ false
      → resolve_session requested client now g
        ≡ check_owner requested client (lookup_session requested now g)
  unfolding resolve_session
  resolve-check_owner named = rw named

  -- the three answers to a request with a session header
  resolve_session-missing :
      (requested == "") ≡ false
      → lookup requested g.clients ≡ none
      → (resolve_session requested client now g).0 ≡ err unknown_session
  resolve_session-missing named e =
      ap (λ (r : Result SessionError String × Sessions). r.0) (resolve-check_owner named)
      ∙ (unfold check_owner in rw (lookup_session-missing requested now g e))

  resolve_session-expired :
      (b : Binding)
      → (requested == "") ≡ false
      → lookup requested g.clients ≡ some b
      → is_expired now b ≡ true
      → (resolve_session requested client now g).0 ≡ err unknown_session
  resolve_session-expired b named e over =
      ap (λ (r : Result SessionError String × Sessions). r.0) (resolve-check_owner named)
      ∙ (unfold check_owner in rw (lookup_session-expired requested now g b e over))

  pub resolve_session-live :
      (b : Binding)
      → (requested == "") ≡ false
      → lookup requested g.clients ≡ some b
      → is_expired now b ≡ false
      → resolve_session requested client now g
        ≡ check_owner requested client (some b.client_id, refreshed requested now b g)
  resolve_session-live b named e fresh =
      resolve-check_owner named
      ∙ ap (check_owner requested client) (lookup_session-live requested now g b e fresh)

  check_owner-own :
      (bound : String) (g' : Sessions)
      → bound ≡ client
      → (check_owner requested client (some bound, g')).0 ≡ ok requested
  unfolding check_owner
  check_owner-own bound g' same = rw ((eq_iff bound client).1 same)

  pub check_owner-other :
      (bound : String) (g' : Sessions)
      → (bound == client) ≡ false
      → check_owner requested client (some bound, g')
        ≡ (err wrong_client, record_reject "cross_client" g')
  unfolding check_owner
  check_owner-other bound g' other = rw other

  resolve_session-named :
      (id : String) → (resolve_session requested client now g).0 ≡ ok id → (requested == "") ≡ false
  unfolding resolve_session
  resolve_session-named id h = elim (Bool-cases (requested == "")) [
    | inl blank ↦ absurd (ground arith)
    | inr named ↦ named
  ]

  resolve_session-Owns :
      (id : String)
      → (resolve_session requested client now g).0 ≡ ok id
      → (id ≡ requested) × Owns client requested now g
  resolve_session-Owns id h =
      let named = resolve_session-named id h in
      elim (Option-cases (lookup requested g.clients)) [
        | inl missing ↦ absurd (ground (arith, resolve_session-missing named missing))
        | inr (b, found) ↦ elim (Bool-cases (is_expired now b)) [
          | inl over ↦ absurd (ground (arith, resolve_session-expired b named found over))
          | inr fresh ↦ elim (Bool-cases (b.client_id == client)) [
            | inr other ↦ absurd (
                ground (
                  arith,
                  resolve_session-live b named found fresh,
                  check_owner-other b.client_id (refreshed requested now b g) other,
                ))
            | inl own ↦
                let same : b.client_id ≡ client = (eq_iff b.client_id client).0 own in
                (
                  ground (
                    arith,
                    resolve_session-live b named found fresh,
                    check_owner-own b.client_id (refreshed requested now b g) same,
                  ),
                  record { binding = b; bound = found; same = same; alive = leb→lt _ _ fresh },
                )
          ]
        ]
      ]

  Owns-resolve_session :
      (requested == "") ≡ false
      → Owns client requested now g
      → (resolve_session requested client now g).0 ≡ ok requested
  Owns-resolve_session named o =
      let fresh : is_expired now o.binding ≡ false = let h = o.alive in ground arith in
      ap (λ (r : Result SessionError String × Sessions). r.0)
        (resolve_session-live o.binding named o.bound fresh)
      ∙ check_owner-own o.binding.client_id (refreshed requested now o.binding g) o.same

  -- A requested session is granted exactly when the header is not empty and the session is bound
  -- to the asking client and has not expired; what is granted is the requested session.
  pub resolve_session-Owns_iff :
      (id : String)
      → ((resolve_session requested client now g).0 ≡ ok id)
        ↔ ((id ≡ requested) × ((requested == "") ≡ false) × Owns client requested now g)
  resolve_session-Owns_iff id = (
    (λ h. let (same, o) = resolve_session-Owns id h in (same, resolve_session-named id h, o)),
    (λ (same, named, o). rw same (Owns-resolve_session named o)),
  )
