-- ===== src/Gateway/Sessions/Capacity.antt =====
-- The capacity eviction and the session table's invariant (internal/gateway/gateway.go).
use mcpshield.Prelude.{
  ℕ, zero, suc, ◌-◌, ◌≤◌, String, ◌≡◌, refl, sym, ◌∙◌, subst, inl, inr, false, none, some, [],
  lookup, delete, IsMap, length, lookup-delete, length-delete, delete-IsMap, ◌==◌, eq_iff, arith,
  Bool-cases, Option-cases,
}
use mcpshield.Gateway.Sessions.{Binding, Sessions, record_eviction, oldest, evict_oldest}
use mcpshield.Gateway.Sessions.Evict.{Table, IsOldest, oldest-IsOldest, oldest-none}

-- The entries left are as they were, and none that is gone expires later than one that is left.
pub record Evicts (n : ℕ) (m m' : Table) : Type 0 where
  pub distinct : IsMap m'
  pub removed : length m' ≡ length m - n
  pub kept : (j : String) (b : Binding) → lookup j m' ≡ some b → lookup j m ≡ some b
  pub oldest_first :
      (i j : String) (a b : Binding)
      → lookup i m ≡ some a
      → lookup i m' ≡ none
      → lookup j m' ≡ some b
      → a.expires_at ≤ b.expires_at

evict_one :
    (n : ℕ) (m m' : Table) (id : String) (t : ℕ)
    → IsMap m
    → IsOldest m id t
    → Evicts n (delete id m) m'
    → Evicts (suc n) m m'
evict_one n m m' id t d o e =
    let (c, found, time) = o.found in
    record {
      distinct = e.distinct;
      removed = omega (arith, e.removed, length-delete id c m d found);
      kept = λ j b h. ground (arith, e.kept j b h, lookup-delete id j m);
      oldest_first = λ i j a b was gone stays. elim (Bool-cases (id == i)) [
        | inl same ↦ ground (
          arith,
          eq_iff id i,
          o.least j b (ground (arith, e.kept j b stays, lookup-delete id j m)),
        )
        | inr other ↦ e.oldest_first i j a b (ground (arith, lookup-delete id i m)) gone stays
      ];
    }

-- a table with no entry has none to evict
Evicts-nil : (n : ℕ) (m : Table) → IsMap m → m ≡ [] → Evicts n m m
Evicts-nil n m d e = record {
  distinct = d;
  removed = rw e (omega arith);
  kept = λ j b h. h;
  oldest_first = λ i j a b was gone. absurd (ground arith);
}

pub ne_empty :
    (id : String) (m : Table) (b : Binding)
    → lookup id m ≡ some b
    → lookup "" m ≡ none
    → (id == "") ≡ false
ne_empty id m b found named = elim (Bool-cases (id == "")) [
  | inl same ↦ absurd (let e : id ≡ "" = (eq_iff id "").0 same in cc)
  | inr other ↦ other
]

abbrev without : String → String → Sessions → Sessions
without id reason g = record g {
  clients = delete id g.clients;
  metrics = record_eviction reason g.metrics;
}

evict_oldest-empty :
    (n : ℕ) (reason : String) (g : Sessions)
    → oldest g.clients ≡ none
    → (evict_oldest (suc n) reason g).clients ≡ g.clients
unfolding evict_oldest
evict_oldest-empty n reason g e = rw (evict_oldest, e)

evict_oldest-step :
    (n : ℕ) (reason : String) (g : Sessions) (id : String) (t : ℕ)
    → oldest g.clients ≡ some (id, t)
    → (id == "") ≡ false
    → (evict_oldest (suc n) reason g).clients
      ≡ (evict_oldest n reason (without id reason g)).clients
unfolding evict_oldest
evict_oldest-step n reason g id t e full = rw (evict_oldest, e) (rw full)

-- Evicting `n` sessions from a table with no empty id removes `n` of them, or all if there are
-- fewer. Those left keep their bindings, and no removed session expires later than one left.
pub evict_oldest-Evicts :
    (n : ℕ) (reason : String) (g : Sessions)
    → IsMap g.clients
    → lookup "" g.clients ≡ none
    → Evicts n g.clients (evict_oldest n reason g).clients
evict_oldest-Evicts zero reason g d named =
    unfold evict_oldest in
    record {
      distinct = d;
      removed = omega arith;
      kept = λ j b h. h;
      oldest_first = λ i j a b was gone. absurd (ground arith);
    }
evict_oldest-Evicts (suc n) reason g d named = elim (Option-cases (oldest g.clients)) [
  | inl empty ↦
      subst (Evicts (suc n) g.clients) (sym (evict_oldest-empty n reason g empty))
        (Evicts-nil (suc n) g.clients d (oldest-none g.clients empty))
  | inr ((id, t), e) ↦
      let o = oldest-IsOldest g.clients id t d e in
      let full : (id == "") ≡ false = ne_empty id g.clients o.found.0 o.found.1 named in
      subst (Evicts (suc n) g.clients) (sym (evict_oldest-step n reason g id t e full)) (
        evict_one n g.clients _ id t d o (
          evict_oldest-Evicts n reason (without id reason g) (delete-IsMap id g.clients d)
            (lookup-delete id "" g.clients ∙ rw (full, named))))
]

-- Eviction leaves the configuration alone.
pub evict_oldest-config :
    (n : ℕ) (reason : String) (g : Sessions)
    → ((evict_oldest n reason g).max_entries ≡ g.max_entries)
      × ((evict_oldest n reason g).ttl ≡ g.ttl)
unfolding evict_oldest
evict_oldest-config zero reason g = (refl, refl)
evict_oldest-config (suc n) reason g = elim (Option-cases (oldest g.clients)) [
  | inl empty ↦ rw (evict_oldest, empty) (refl, refl)
  | inr ((id, t), e) ↦ elim (Bool-cases (id == "")) [
    | inl blank ↦ rw (evict_oldest, e) (rw blank (refl, refl))
    | inr full ↦ rw (evict_oldest, e) (rw full (evict_oldest-config n reason (without id reason g)))
  ]
]
