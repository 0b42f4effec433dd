-- ===== src/Policy/RateLimit/Bounds.antt =====
-- How many calls the limiter of internal/policy/ratelimit.go admits.
use mcpshield.Prelude.{
  ℕ, min, ◌+◌, ◌-◌, ◌*◌, ◌≤◌, ◌<◌, String, ◌≡◌, ◌∙◌, none, some, List, [], ◌∷◌, arith, lookup, leb,
  ◌==◌, eq_iff, ◌⊎◌, All, All-imp, Bool-cases, Option-cases, inl, inr,
}
use mcpshield.Policy.RateLimit.{Bucket, Buckets, load_or_new, rotate, spend}
use mcpshield.Policy.RateLimit.Trace.{
  Call, step, admitted, asked, opened, step-spend, opened_current, admitted-other, admitted-same,
}

abbrev InWindow : String → ℕ → ℕ → ℕ → Call → Type 0
InWindow k max window start c =
    c.key ≡ k → (c.max ≡ max) × (c.window ≡ window) × (c.now < start + window)

-- The key's bucket stays in its window: what is left of the limit is admitted, and no more.
admitted-eq-rest :
    (k : String) (max window : ℕ) (cs : List Call) (bs : Buckets) (b : Bucket)
    → lookup k bs ≡ some b
    → All (InWindow k max window b.window_start) cs
    → admitted k cs bs ≡ min (asked k cs) (max - b.count)
unfolding spend asked
admitted-eq-rest k max window [] bs b e h = unfold admitted in omega arith
admitted-eq-rest k max window (c ∷ cs) bs b e (h, hs) = elim (Bool-cases (c.key == k)) [
  | inr other ↦
      let (same, kept) = admitted-other k c cs bs other in
      ground (arith, same, admitted-eq-rest k max window cs (step c bs).1 b (kept ∙ e) hs)
  | inl this ↦
      let key : c.key ≡ k = (eq_iff c.key k).0 this in
      let (m, w, t) = h key in
      let found : opened c bs ≡ b = opened_current k c bs b key e (rw w t) in
      let (_, after) = step-spend k c bs key in
      elim (Bool-cases (leb max b.count)) [
        | inl full ↦
            let after' : lookup k (step c bs).1 ≡ some b = ground arith in
            ground (
              arith,
              admitted-same k c cs bs key,
              admitted-eq-rest k max window cs (step c bs).1 b after' hs,
            )
        | inr room ↦
            let b' : Bucket = record b { count = b.count + 1 } in
            let after' : lookup k (step c bs).1 ≡ some b' = ground arith in
            ground (
              arith,
              admitted-same k c cs bs key,
              admitted-eq-rest k max window cs (step c bs).1 b' after' hs,
            )
      ]
]

-- The call is for the key with its limit, and within one window's length from `start`.
abbrev pub Within : String → ℕ → ℕ → ℕ → Call → Type 0
Within k max window start c =
    c.key ≡ k → (c.max ≡ max) × (c.window ≡ window) × (start ≤ c.now) × (c.now < start + window)

abbrev fresh : ℕ → Bucket
fresh now = record { window_start = now; count = 0 }

Within-InWindow :
    (k : String) (max window start now : ℕ) (c : Call)
    → start ≤ now
    → Within k max window start c
    → InWindow k max window now c
Within-InWindow k max window start now c h w e = let (m, d, lo, hi) = w e in (m, d, omega arith)

-- a call that opens a window admits the whole limit until the stretch ends
admitted-fresh :
    (k : String) (max window start : ℕ) (c : Call) (cs : List Call) (bs : Buckets)
    → c.key ≡ k
    → c.max ≡ max
    → start ≤ c.now
    → opened c bs ≡ fresh c.now
    → All (Within k max window start) cs
    → admitted k (c ∷ cs) bs ≡ min (asked k (c ∷ cs)) max
unfolding spend asked
admitted-fresh k max window start c cs bs key m late new hs =
    let (_, after) = step-spend k c bs key in
    let hs' : All (InWindow k max window c.now) cs =
      All-imp (λ c' w. Within-InWindow k max window start c.now c' late w) cs hs in
    elim (Bool-cases (leb max 0)) [
      | inl none' ↦
          let after' : lookup k (step c bs).1 ≡ some (fresh c.now) = ground arith in
          ground (
            arith,
            admitted-same k c cs bs key,
            (eq_iff c.key k).1 key,
            admitted-eq-rest k max window cs (step c bs).1 (fresh c.now) after' hs',
          )
      | inr room ↦
          let b' : Bucket = record { window_start = c.now; count = 1 } in
          let after' : lookup k (step c bs).1 ≡ some b' = ground arith in
          ground (
            arith,
            admitted-same k c cs bs key,
            (eq_iff c.key k).1 key,
            admitted-eq-rest k max window cs (step c bs).1 b' after' hs',
          )
    ]

-- the bucket that a call finds: a new one, or the key's own
opened_cases :
    (k : String) (c : Call) (bs : Buckets) (b : Bucket)
    → c.key ≡ k
    → lookup k bs ≡ some b
    → (opened c bs ≡ fresh c.now) ⊎ (opened c bs ≡ b)
unfolding rotate load_or_new
opened_cases k c bs b key e =
    let found : lookup c.key bs ≡ some b = rw key e in
    elim (Bool-cases (leb (b.window_start + c.window) c.now)) [
      | inl over ↦ inl (ground arith)
      | inr current ↦ inr (ground arith)
    ]

admitted-le-rest_twice :
    (k : String) (max window start : ℕ) (cs : List Call) (bs : Buckets) (b : Bucket)
    → lookup k bs ≡ some b
    → All (Within k max window start) cs
    → admitted k cs bs ≤ (max - b.count) + max
unfolding spend
admitted-le-rest_twice k max window start [] bs b e h = unfold admitted in omega arith
admitted-le-rest_twice k max window start (c ∷ cs) bs b e (h, hs) = elim (Bool-cases (c.key == k)) [
  | inr other ↦
      let (same, kept) = admitted-other k c cs bs other in
      rw same (admitted-le-rest_twice k max window start cs (step c bs).1 b (kept ∙ e) hs)
  | inl this ↦
      let key : c.key ≡ k = (eq_iff c.key k).0 this in
      let (m, w, lo, hi) = h key in
      let (_, after) = step-spend k c bs key in
      elim (opened_cases k c bs b key e) [
        | inl new ↦ omega (arith, admitted-fresh k max window start c cs bs key m lo new hs)
        | inr found ↦ elim (Bool-cases (leb max b.count)) [
          | inl full ↦
              let after' : lookup k (step c bs).1 ≡ some b = ground arith in
              ground (
                arith,
                admitted-same k c cs bs key,
                admitted-le-rest_twice k max window start cs (step c bs).1 b after' hs,
              )
          | inr room ↦
              let b' : Bucket = record b { count = b.count + 1 } in
              let after' : lookup k (step c bs).1 ≡ some b' = ground arith in
              ground (
                arith,
                admitted-same k c cs bs key,
                admitted-le-rest_twice k max window start cs (step c bs).1 b' after' hs,
              )
        ]
      ]
]

opened_new :
    (k : String) (c : Call) (bs : Buckets)
    → c.key ≡ k
    → lookup k bs ≡ none
    → opened c bs ≡ fresh c.now
unfolding rotate load_or_new
opened_new k c bs key e = let found : lookup c.key bs ≡ none = rw key e in ground arith

-- For a key with no bucket yet, and calls within one window's length, exactly the first calls up to
-- the limit are admitted: as many as are made, but no more than the limit.
pub admitted-new :
    (k : String) (max window start : ℕ) (cs : List Call) (bs : Buckets)
    → lookup k bs ≡ none
    → All (Within k max window start) cs
    → admitted k cs bs ≡ min (asked k cs) max
unfolding asked
admitted-new k max window start [] bs e h = unfold admitted in omega arith
admitted-new k max window start (c ∷ cs) bs e (h, hs) = elim (Bool-cases (c.key == k)) [
  | inr other ↦
      let (same, kept) = admitted-other k c cs bs other in
      ground (arith, same, admitted-new k max window start cs (step c bs).1 (kept ∙ e) hs)
  | inl this ↦
      let key : c.key ≡ k = (eq_iff c.key k).0 this in
      let (m, w, lo, hi) = h key in
      admitted-fresh k max window start c cs bs key m lo (opened_new k c bs key e) hs
]

-- Within any stretch of time of one window's length, at most twice the limit is admitted for a
-- key, whatever its bucket holds at the start and whatever calls for other keys stand between.
pub admitted-le-twice :
    (k : String) (max window start : ℕ) (cs : List Call) (bs : Buckets)
    → All (Within k max window start) cs
    → admitted k cs bs ≤ 2 * max
admitted-le-twice k max window start cs bs h = elim (Option-cases (lookup k bs)) [
  | inl new ↦ omega (arith, admitted-new k max window start cs bs new h)
  | inr (b, found) ↦ omega (arith, admitted-le-rest_twice k max window start cs bs b found h)
]
