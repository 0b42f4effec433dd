-- ===== src/Policy.antt =====
-- internal/policy: validators, the policy file, the rate limiter and the engine.
pub mod Validator
pub mod File
pub mod Loader
pub mod RateLimit
pub mod Engine
pub mod Tests
mod QuotaTests
