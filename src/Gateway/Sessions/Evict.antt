-- ===== src/Gateway/Sessions/Evict.antt =====
-- What the two eviction loops of internal/gateway/gateway.go remove.
use mcpshield.Prelude.{
  ℕ, ◌≤◌, String, ◌≡◌, refl, ◌∙◌, ◌≢◌, ◌⊎◌, inl, inr, Option, none, some, List, [], ◌∷◌, lookup,
  IsMap, length, ltb, if◌then◌else◌, eq_iff, arith, Bool-cases,
}
use mcpshield.Metrics.{Registry}
use mcpshield.Gateway.Sessions.{Binding, is_expired, sweep, note_expired, oldest_from, oldest}

abbrev pub Table : Type 0
Table = List (String × Binding)

-- what is left of an entry at a time
abbrev pub live : ℕ → Option Binding → Option Binding
live now none = none
live now (some b) = if is_expired now b then none else some b

pub lookup-sweep :
    (id : String) (now : ℕ) (m : Table) (reg : Option Registry)
    → IsMap m
    → lookup id (sweep now m reg).0 ≡ live now (lookup id m)
unfolding sweep
lookup-sweep id now [] reg h = refl
lookup-sweep id now ((j, b) ∷ m) reg (n, h) =
    ground (arith, lookup-sweep id now m (note_expired now b reg) h, eq_iff j id)

pub sweep-IsMap :
    (now : ℕ) (m : Table) (reg : Option Registry) → IsMap m → IsMap (sweep now m reg).0
unfolding sweep
sweep-IsMap now [] reg h = tt
sweep-IsMap now ((j, b) ∷ m) reg (n, h) =
    let rest = sweep-IsMap now m (note_expired now b reg) h in
    let none' : lookup j (sweep now m (note_expired now b reg)).0 ≡ none =
      lookup-sweep j now m (note_expired now b reg) h ∙ rw n in
    elim (Bool-cases (is_expired now b)) [
      | inl over ↦ rw over (rw over at rest)
      | inr live' ↦ rw live' (rw live' at none', rw live' at rest)
    ]

pub length-sweep :
    (now : ℕ) (m : Table) (reg : Option Registry) → length (sweep now m reg).0 ≤ length m
unfolding sweep
length-sweep now [] reg = omega arith
length-sweep now ((j, b) ∷ m) reg = ground (arith, length-sweep now m (note_expired now b reg))

-- The pair is in the table, and no entry of it expires earlier.
pub record IsOldest (m : Table) (id : String) (t : ℕ) : Type 0 where
  pub found : (b : Binding) × (lookup id m ≡ some b) × (b.expires_at ≡ t)
  pub least : (j : String) (b : Binding) → lookup j m ≡ some b → t ≤ b.expires_at

-- the scan from the oldest seen so far
oldest_from-least :
    (old : String) (t : ℕ) (m : Table) (id : String) (u : ℕ)
    → oldest_from (some (old, t)) m ≡ some (id, u)
    → (u ≤ t) × ((j : String) (b : Binding) → lookup j m ≡ some b → u ≤ b.expires_at)
unfolding oldest_from
oldest_from-least old t [] id u h = (ground arith, λ j b e. cc)
oldest_from-least old t ((k, c) ∷ m) id u h = elim (Bool-cases (ltb c.expires_at t)) [
  | inl earlier ↦
      let (lo, all) = oldest_from-least k c.expires_at m id u (ground arith) in
      (ground arith, λ j b e. ground (arith, all j b))
  | inr later ↦
      let (lo, all) = oldest_from-least old t m id u (ground arith) in
      (lo, λ j b e. ground (arith, all j b))
]

oldest_from-found :
    (old : String) (t : ℕ) (m : Table) (id : String) (u : ℕ)
    → IsMap m
    → oldest_from (some (old, t)) m ≡ some (id, u)
    → ((id ≡ old) × (u ≡ t)) ⊎ ((b : Binding) × (lookup id m ≡ some b) × (b.expires_at ≡ u))
unfolding oldest_from
oldest_from-found old t [] id u d h = inl (ground arith)
oldest_from-found old t ((k, c) ∷ m) id u (n, d) h = elim (Bool-cases (ltb c.expires_at t)) [
  | inl earlier ↦ elim (oldest_from-found k c.expires_at m id u d (ground arith)) [
    | inl (same, time) ↦ inr (c, ground (arith, eq_iff k id), ground arith)
    | inr (b, found, time) ↦ inr (b, ground (arith, eq_iff k id), time)
  ]
  | inr later ↦ elim (oldest_from-found old t m id u d (ground arith)) [
    | inl same ↦ inl same
    | inr (b, found, time) ↦ inr (b, ground (arith, eq_iff k id), time)
  ]
]

pub oldest-IsOldest :
    (m : Table) (id : String) (t : ℕ) → IsMap m → oldest m ≡ some (id, t) → IsOldest m id t
unfolding oldest_from
oldest-IsOldest [] id t d h = absurd (ground arith)
oldest-IsOldest ((k, c) ∷ m) id t (n, d) h =
    let (lo, all) = oldest_from-least k c.expires_at m id t h in
    record {
      found = elim (oldest_from-found k c.expires_at m id t d h) [
        | inl (same, time) ↦ (c, ground (arith, eq_iff k id), ground arith)
        | inr (b, found, time) ↦ (b, ground (arith, eq_iff k id), time)
      ];
      least = λ j b e. ground (arith, all j b);
    }

oldest_some : (best : String × ℕ) (m : Table) → oldest_from (some best) m ≢ none
unfolding oldest_from
oldest_some best [] h = cc
oldest_some (old, t) ((k, c) ∷ m) h =
    oldest_some (if ltb c.expires_at t then (k, c.expires_at) else (old, t)) m (ground arith)

pub oldest-none : (m : Table) → oldest m ≡ none → m ≡ []
unfolding oldest_from
oldest-none [] h = refl
oldest-none ((k, c) ∷ m) h = absurd (oldest_some (k, c.expires_at) m h)
