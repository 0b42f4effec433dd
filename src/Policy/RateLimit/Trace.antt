-- ===== src/Policy/RateLimit/Trace.antt =====
-- Sequences of calls of the limiter of internal/policy/ratelimit.go, and what one call does.
use mcpshield.Prelude.{
  ℕ, suc, ◌+◌, ◌<◌, String, ◌≡◌, refl, ◌∙◌, Bool, false, ◌&&◌, some, List, [], ◌∷◌, arith, lookup,
  lookup-insert, if◌then◌else◌, ◌==◌, eq_iff,
}
use mcpshield.Policy.RateLimit.{Bucket, Buckets, load_or_new, rotate, spend, allow}

-- one call of `Allow`
pub record Call : Type 0 where
  pub key : String
  pub max : ℕ
  pub window : ℕ
  pub now : ℕ

abbrev pub step : Call → Buckets → Bool × Buckets
step c bs = allow bs c.key c.max c.window c.now

-- How many of the calls for a key are admitted.
unfoldable pub admitted : String → List Call → Buckets → ℕ
admitted k [] bs = 0
admitted k (c ∷ cs) bs =
    let rest = admitted k cs (step c bs).1 in
    if (step c bs).0 && (c.key == k) then suc rest else rest

-- the bucket that a call finds, rotated
abbrev pub opened : Call → Buckets → Bucket
opened c bs = rotate c.window c.now (load_or_new c.key c.now bs)

-- How many of the calls are for a key.
unfoldable pub asked : String → List Call → ℕ
asked k [] = 0
asked k (c ∷ cs) = let rest = asked k cs in if c.key == k then suc rest else rest

-- A call changes the bucket of its key, and no other.
pub lookup-allow :
    (bs : Buckets) (k j : String) (max window now : ℕ)
    → lookup j (allow bs k max window now).1 ≡ (
        if k == j
        then some (spend max (rotate window now (load_or_new k now bs))).1
        else lookup j bs)
unfolding allow
lookup-allow bs k j max window now = lookup-insert k j _ bs

-- what a call for the key does, in terms of the bucket that it finds
pub step-spend :
    (k : String) (c : Call) (bs : Buckets)
    → c.key ≡ k
    → ((step c bs).0 ≡ (spend c.max (opened c bs)).0)
      × (lookup k (step c bs).1 ≡ some (spend c.max (opened c bs)).1)
unfolding allow
step-spend k c bs same = (refl, rw (lookup-insert c.key k _ bs, (eq_iff c.key k).1 same))

-- the bucket of a call in the current window, and of one that opens a window
pub opened_current :
    (k : String) (c : Call) (bs : Buckets) (b : Bucket)
    → c.key ≡ k
    → lookup k bs ≡ some b
    → c.now < b.window_start + c.window
    → opened c bs ≡ b
unfolding rotate load_or_new
opened_current k c bs b same e h = let found : lookup c.key bs ≡ some b = rw same e in ground arith

pub admitted-other :
    (k : String) (c : Call) (cs : List Call) (bs : Buckets)
    → (c.key == k) ≡ false
    → (admitted k (c ∷ cs) bs ≡ admitted k cs (step c bs).1)
      × (lookup k (step c bs).1 ≡ lookup k bs)
unfolding admitted
admitted-other k c cs bs other =
    (ground arith, lookup-allow bs c.key k c.max c.window c.now ∙ rw other)

pub admitted-same :
    (k : String) (c : Call) (cs : List Call) (bs : Buckets)
    → c.key ≡ k
    → admitted k (c ∷ cs) bs ≡ (
        if (spend c.max (opened c bs)).0
        then suc (admitted k cs (step c bs).1)
        else admitted k cs (step c bs).1)
unfolding admitted
admitted-same k c cs bs same = ground (arith, (step-spend k c bs same).0, (eq_iff c.key k).1 same)
