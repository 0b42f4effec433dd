-- ===== src/Gateway/Sessions/Lifetime.antt =====
-- How long a session lives, and sequences of session operations (internal/gateway/gateway.go).
use mcpshield.Prelude.{
  ℕ, ◌+◌, ◌<◌, String, ◌≡◌, refl, sym, ◌∙◌, ap, subst, ◌↔◌, inl, inr, false, Option, some, List, [],
  ◌∷◌, lookup, lookup-insert, leb, ◌==◌, eq_refl, arith, Bool-cases, Result, ok, err, All, length,
}
use mcpshield.Gateway.Sessions.{
  Binding, Sessions, SessionError, is_expired, evict_expired, make_room, bind_session,
  resolve_session, wrong_client,
}
use mcpshield.Gateway.Sessions.Capacity.{evict_oldest-config}
use mcpshield.Gateway.Sessions.Invariant.{
  IsValid, refreshed, resolve_session-IsValid, bind_session-IsValid,
}
use mcpshield.Gateway.Sessions.Ownership.{
  Owns, resolve_session-Owns_iff, resolve_session-live, check_owner-other,
}

ttl-make_room : (g : Sessions) → (make_room g).ttl ≡ g.ttl
unfolding make_room
ttl-make_room g = elim (Bool-cases (leb g.max_entries (length g.clients))) [
  | inl full ↦ rw full (evict_oldest-config _ "capacity" g).1
  | inr room ↦ rw room
]

lookup-bind_session :
    (id client : String) (now later : ℕ) (g : Sessions)
    → lookup id (bind_session id client now later g).clients
      ≡ some (record { client_id = client; expires_at = later + g.ttl })
unfolding bind_session
lookup-bind_session id client now later g =
    lookup-insert id id _ (make_room (evict_expired now g)).clients
    ∙ rw (eq_refl, ttl-make_room) (unfold evict_expired in refl)

-- A session that was just bound is granted to a client at a later time exactly when that client is
-- the one it was bound to and its time to live has not passed, whatever the table held before.
pub bind-resolve_session_iff :
    (id client asker : String) (now later then' : ℕ) (g : Sessions)
    → (id == "") ≡ false
    → ((resolve_session id asker then' (bind_session id client now later g)).0 ≡ ok id)
      ↔ ((client ≡ asker) × (then' < later + g.ttl))
bind-resolve_session_iff id client asker now later then' g named =
    let bound = bind_session id client now later g in
    let held = lookup-bind_session id client now later g in
    let (to, from) = resolve_session-Owns_iff id asker then' bound id in
    (
      (λ h. let (_, _, o) = to h in ground (arith, held, o.bound, o.same, o.alive)),
      (λ (same, alive). from (
        refl,
        named,
        record {
          binding = record { client_id = client; expires_at = later + g.ttl };
          bound = held;
          same = same;
          alive = alive;
        },
      )),
    )

abbrev entry : ℕ → String → Option Binding
entry t client = some (record { client_id = client; expires_at = t })

-- A request by another client for a session that is alive is refused, and extends the session by
-- its full time to live all the same.
pub refused_request_extends :
    (id client asker : String) (now : ℕ) (g : Sessions)
    → (id == "") ≡ false
    → (client == asker) ≡ false
    → Owns client id now g
    → ((resolve_session id asker now g).0 ≡ err wrong_client)
      × (lookup id (resolve_session id asker now g).1.clients
          ≡ some (record { client_id = client; expires_at = now + g.ttl }))
refused_request_extends id client asker now g named other o =
    let b = o.binding in
    let g' = refreshed id now b g in
    let fresh : is_expired now b ≡ false = let h = o.alive in ground arith in
    let other' : (b.client_id == asker) ≡ false =
      subst (λ c. (c == asker) ≡ false) (sym o.same) other in
    let e =
      resolve_session-live id asker now g b named o.bound fresh
      ∙ check_owner-other id asker now g b.client_id g' other' in
    (
      ap (λ (r : Result SessionError String × Sessions). r.0) e,
      ap (λ (r : Result SessionError String × Sessions). lookup id r.1.clients) e
          ∙ lookup-insert id id (record b { expires_at = now + g.ttl }) g.clients
          ∙ rw eq_refl (ap (entry (now + g.ttl)) o.same),
    )

-- An operation on the table: a new session at `initialize`, or a request with a session header.
pub data Op : Type 0 where
  bind : String → String → ℕ → ℕ → Op
  resolve : String → String → ℕ → Op

abbrev pub apply : Op → Sessions → Sessions
apply (bind id client now later) g = bind_session id client now later g
apply (resolve requested client now) g = (resolve_session requested client now g).1

unfoldable pub run : List Op → Sessions → Sessions
run [] g = g
run (o ∷ os) g = run os (apply o g)

-- The ids of new sessions are not empty.
abbrev pub IsNamed : Op → Type 0
IsNamed (bind id client now later) = (id == "") ≡ false
IsNamed (resolve requested client now) = Unit

apply-IsValid : (o : Op) (g : Sessions) → IsNamed o → IsValid g → IsValid (apply o g)
apply-IsValid (bind id client now later) g named v =
    bind_session-IsValid id client now later g named v
apply-IsValid (resolve requested client now) g named v =
    resolve_session-IsValid requested client now g v

-- Whatever sequence of session operations runs, with ids for the new sessions that are not empty,
-- a valid table stays valid: no id is bound twice, and the configured number is never exceeded.
run-IsValid : (os : List Op) (g : Sessions) → All IsNamed os → IsValid g → IsValid (run os g)
unfolding run
run-IsValid [] g named v = v
run-IsValid (o ∷ os) g (n, named) v = run-IsValid os (apply o g) named (apply-IsValid o g n v)
