-- ===== src/Gateway/Sessions/Invariant.antt =====
-- The invariant of the session table, and what binding and lookup do (internal/gateway/gateway.go).
use mcpshield.Prelude.{
  ℕ, ◌+◌, ◌-◌, ◌≤◌, ◌<◌, String, ◌≡◌, ◌∙◌, ◌≢◌, inl, inr, true, false, Option, none, some, lookup,
  insert, delete, IsMap, length, lookup-delete, lookup-insert, insert-IsMap, length-insert,
  length-insert_old, length-delete-le, delete-IsMap, leb, leb→le, ◌==◌, arith, Bool-cases,
  Option-cases,
}
use mcpshield.Gateway.Sessions.{
  Binding, Sessions, is_expired, record_eviction, evict_expired, evict_oldest, make_room,
  bind_session, lookup_session, check_owner, resolve_session, update_active,
}
use mcpshield.Gateway.Sessions.Evict.{sweep-IsMap, length-sweep, lookup-sweep}
use mcpshield.Gateway.Sessions.Capacity.{Evicts, evict_oldest-Evicts, ne_empty, evict_oldest-config}

-- No session id is bound twice, none is empty, and there are no more than the configured number.
pub record IsValid (g : Sessions) : Type 0 where
  pub positive : 0 < g.max_entries
  pub distinct : IsMap g.clients
  pub named : lookup "" g.clients ≡ none
  pub bounded : length g.clients ≤ g.max_entries

-- what a table has before the new session is added: room for it
record HasRoom (g : Sessions) : Type 0 where
  distinct : IsMap g.clients
  named : lookup "" g.clients ≡ none
  room : length g.clients < g.max_entries

evict_expired-IsValid : (now : ℕ) (g : Sessions) → IsValid g → IsValid (evict_expired now g)
unfolding evict_expired
evict_expired-IsValid now g v = record {
  positive = v.positive;
  distinct = sweep-IsMap now g.clients g.metrics v.distinct;
  named = lookup-sweep "" now g.clients g.metrics v.distinct ∙ rw v.named;
  bounded = omega (arith, length-sweep now g.clients g.metrics, v.bounded);
}

make_room-HasRoom : (g : Sessions) → IsValid g → HasRoom (make_room g)
unfolding make_room
make_room-HasRoom g v = elim (Bool-cases (leb g.max_entries (length g.clients))) [
  | inr room ↦ rw room (record { distinct = v.distinct; named = v.named; room = ground arith })
  | inl full ↦
      let n = length g.clients - g.max_entries + 1 in
      let e : Evicts n g.clients (evict_oldest n "capacity" g).clients =
        evict_oldest-Evicts n "capacity" g v.distinct v.named in
      let (max, ttl) = evict_oldest-config n "capacity" g in
      rw full (record {
        distinct = e.distinct;
        named = elim (Option-cases (lookup "" (evict_oldest n "capacity" g).clients)) [
          | inl gone ↦ gone
          | inr (b, found) ↦ absurd (ground (arith, e.kept "" b found, v.named))
        ];
        room = omega (arith, e.removed, max, leb→le _ _ full, v.positive);
      })
]

-- Binding a session with an id that is not empty keeps the table valid: it never holds more than
-- the configured number of sessions.
pub bind_session-IsValid :
    (id client : String) (now later : ℕ) (g : Sessions)
    → (id == "") ≡ false
    → IsValid g
    → IsValid (bind_session id client now later g)
unfolding bind_session
bind_session-IsValid id client now later g full v =
    let r : HasRoom (make_room (evict_expired now g)) =
      make_room-HasRoom (evict_expired now g) (evict_expired-IsValid now g v) in
    record {
      positive = omega (arith, r.room);
      distinct = insert-IsMap id _ (make_room (evict_expired now g)).clients r.distinct;
      named = lookup-insert id "" _ (make_room (evict_expired now g)).clients ∙ rw (full, r.named);
      bounded = omega (
        arith,
        length-insert id
            (record {
              client_id = client;
              expires_at = later + (make_room (evict_expired now g)).ttl;
            })
            (make_room (evict_expired now g)).clients,
        r.room,
      );
    }

-- a lookup, by what the table holds
pub lookup_session-missing :
    (id : String) (now : ℕ) (g : Sessions)
    → lookup id g.clients ≡ none
    → lookup_session id now g ≡ (none, g)
unfolding lookup_session
lookup_session-missing id now g e = rw (lookup_session, e)

abbrev pub dropped : String → Sessions → Sessions
dropped id g =
    update_active
      (record g { clients = delete id g.clients; metrics = record_eviction "expired" g.metrics })

pub lookup_session-expired :
    (id : String) (now : ℕ) (g : Sessions) (b : Binding)
    → lookup id g.clients ≡ some b
    → is_expired now b ≡ true
    → lookup_session id now g ≡ (none, dropped id g)
unfolding lookup_session
lookup_session-expired id now g b e over = rw (lookup_session, e) (rw over)

abbrev pub refreshed : String → ℕ → Binding → Sessions → Sessions
refreshed id now b g = record g {
  clients = insert id (record b { expires_at = now + g.ttl }) g.clients;
}

pub lookup_session-live :
    (id : String) (now : ℕ) (g : Sessions) (b : Binding)
    → lookup id g.clients ≡ some b
    → is_expired now b ≡ false
    → lookup_session id now g ≡ (some b.client_id, refreshed id now b g)
unfolding lookup_session
lookup_session-live id now g b e fresh = rw (lookup_session, e) (rw fresh)

refreshed-IsValid :
    (id : String) (now : ℕ) (g : Sessions) (b : Binding)
    → lookup id g.clients ≡ some b
    → IsValid g
    → IsValid (refreshed id now b g)
refreshed-IsValid id now g b found v =
    let held : lookup id g.clients ≢ none = λ gone. cc in
    record {
      positive = v.positive;
      distinct = insert-IsMap id _ g.clients v.distinct;
      named = lookup-insert id "" _ g.clients ∙ rw (ne_empty id g.clients b found v.named, v.named);
      bounded = rw (length-insert_old id _ g.clients held) v.bounded;
    }

pub dropped-IsValid : (id : String) (g : Sessions) → IsValid g → IsValid (dropped id g)
dropped-IsValid id g v = record {
  positive = v.positive;
  distinct = delete-IsMap id g.clients v.distinct;
  named = ground (arith, lookup-delete id "" g.clients, v.named);
  bounded = omega (arith, length-delete-le id g.clients, v.bounded);
}

-- Looking a session up, which drops it once it has expired and extends it otherwise, keeps the
-- table valid.
pub lookup_session-IsValid :
    (id : String) (now : ℕ) (g : Sessions) → IsValid g → IsValid (lookup_session id now g).1
lookup_session-IsValid id now g v = elim (Option-cases (lookup id g.clients)) [
  | inl missing ↦ rw (lookup_session-missing id now g missing) v
  | inr (b, found) ↦ elim (Bool-cases (is_expired now b)) [
    | inl over ↦ rw (lookup_session-expired id now g b found over) (dropped-IsValid id g v)
    | inr fresh ↦
        rw (lookup_session-live id now g b found fresh) (refreshed-IsValid id now g b found v)
  ]
]

check_owner-IsValid :
    (requested client : String) (found : Option String) (g : Sessions)
    → IsValid g
    → IsValid (check_owner requested client (found, g)).1
unfolding check_owner
check_owner-IsValid requested client none g v = record {
  positive = v.positive;
  distinct = v.distinct;
  named = v.named;
  bounded = v.bounded;
}
check_owner-IsValid requested client (some bound) g v = elim (Bool-cases (bound == client)) [
  | inl same ↦ rw same v
  | inr other ↦ rw other (record {
    positive = v.positive;
    distinct = v.distinct;
    named = v.named;
    bounded = v.bounded;
  })
]

-- Resolving a requested session keeps the table valid, whatever the answer.
pub resolve_session-IsValid :
    (requested client : String) (now : ℕ) (g : Sessions)
    → IsValid g
    → IsValid (resolve_session requested client now g).1
unfolding resolve_session
resolve_session-IsValid requested client now g v = elim (Bool-cases (requested == "")) [
  | inl none' ↦ rw none' (record {
    positive = v.positive;
    distinct = v.distinct;
    named = v.named;
    bounded = v.bounded;
  })
  | inr some' ↦
      let (found, g') = lookup_session requested now g in
      rw some'
        (check_owner-IsValid requested client found g' (lookup_session-IsValid requested now g v))
]
