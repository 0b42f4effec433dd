-- ===== src/Policy/RateLimit.antt =====
-- internal/policy/ratelimit.go: the fixed-window limiter. A time is in nanoseconds, as is a window;
-- the buckets' map is the state, and a bucket's mutex makes `Allow` one step.
pub mod Trace
pub mod Bounds
use mcpshield.Prelude.{
  ℕ, ◌+◌, String, Bool, true, false, none, some, List, lookup, insert, leb, if◌then◌else◌,
}

-- The interface that the engine uses, over a state of its own.
pub record Limiter (S : Type 0) : Type 0 where
  pub allow : S → String → ℕ → ℕ → ℕ → Bool × S

pub record Bucket : Type 0 where
  pub window_start : ℕ
  pub count : ℕ

abbrev pub Buckets : Type 0
Buckets = List (String × Bucket)

-- `LoadOrStore(key, &bucket{windowStart: now})`
unfoldable pub load_or_new : String → ℕ → Buckets → Bucket
load_or_new key now bs = elim (lookup key bs) [
  | none ↦ record { window_start = now; count = 0 }
  | some b ↦ b
]

-- `if now.Sub(b.windowStart) >= window { … }`
unfoldable pub rotate : ℕ → ℕ → Bucket → Bucket
rotate window now b =
    if leb (b.window_start + window) now then record { window_start = now; count = 0 } else b

-- `if b.count >= max { return false }; b.count++; return true`
unfoldable pub spend : ℕ → Bucket → Bool × Bucket
spend max b = if leb max b.count then (false, b) else (true, record b { count = b.count + 1 })

-- `Allow(key, max, window, now)`
unfoldable pub allow : Buckets → String → ℕ → ℕ → ℕ → Bool × Buckets
allow bs key max window now =
    let (ok, b) = spend max (rotate window now (load_or_new key now bs)) in (ok, insert key b bs)

abbrev pub fixed_window : Limiter Buckets
fixed_window = record { allow = allow }
