-- ===== src/Policy/QuotaTests.antt =====
-- Calls of two clients under one rate limit.
use mcpshield.Prelude.{◌*◌, ◌≤◌, ℕ, String, List, [], ◌∷◌, ◌≡◌, refl, All, arith}
use mcpshield.Policy.RateLimit.{allow, spend, rotate, load_or_new}
use mcpshield.Policy.Loader.{evaluate, deny_scan, allow_scan, any_arg_fails}
use mcpshield.Policy.Validator.{validate}
use mcpshield.Policy.Engine as E
use mcpshield.Policy.Engine.{client_key, limit_scan, evaluate_loaded}
use mcpshield.Policy.Engine.Scanned.{Ask, Agrees}
use mcpshield.Policy.Engine.Quota.{Asked, allowed, allowed-le-twice}
use mcpshield.Policy.Tests.{allow_read, fs_policy, read_call, fs_engine}

abbrev read_at : String → ℕ → Ask
read_at client now = record { client = client; now = now; call = read_call }

abbrev asks : List Ask
asks = read_at "ann" 5 ∷ read_at "ann" 7 ∷ read_at "bob" 9 ∷ []

abbrev key : String
key = client_key "ann" allow_read.name "fs.read"

-- The one rule agrees with itself.
allow_read-Agrees : (a : Ask) → Agrees key 1 1_000_000 a allow_read
allow_read-Agrees a rl limited same = (ground (arith, limited), ground (arith, limited))

asks-Asked : All (Asked key 1 1_000_000 5 fs_policy) asks
asks-Asked = (
  (omega arith, omega arith, (allow_read-Agrees (read_at "ann" 5), tt)),
  (
    (omega arith, omega arith, (allow_read-Agrees (read_at "ann" 7), tt)),
    ((omega arith, omega arith, (allow_read-Agrees (read_at "bob" 9), tt)), tt),
  ),
)

-- The first call of the one client is allowed, the second is not, and the other's does not count.
one_allowed : allowed key fs_policy asks fs_engine ≡ 1
unfolding allowed E.evaluate evaluate_loaded limit_scan evaluate deny_scan allow_scan any_arg_fails
    validate allow spend rotate load_or_new
one_allowed = refl

allowed-le-twice_example : allowed key fs_policy asks fs_engine ≤ 2 * 1
allowed-le-twice_example =
    allowed-le-twice key 1 1_000_000 5 fs_policy asks fs_engine refl asks-Asked
