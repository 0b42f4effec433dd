-- ===== src/Policy/File.antt =====
-- internal/policy/loader.go: the policy file, what `compile` makes of it, and the errors of the
-- loader.
use mcpshield.Prelude.{ℕ, String, Option, List, ℤ}
use mcpshield.Policy.Validator.{ArgValidator, ArgError, CompiledArgValidator}

pub record RateLimitConfig : Type 0 where
  pub max : ℤ
  pub window : String
  pub per : String

pub record RuleConfig : Type 0 where
  pub name : String
  pub action : String
  pub tools : List String
  pub toolset : String
  pub args : List (String × ArgValidator)
  pub reason : String
  pub rate_limit : Option RateLimitConfig

pub record PolicyFile : Type 0 where
  pub version : String
  pub default_action : String
  pub toolsets : List (String × List String)
  pub rules : List RuleConfig

-- `max` and `window` are numbers: `compile` rejects what is not positive.
pub record CompiledRateLimit : Type 0 where
  pub max : ℕ
  pub window : ℕ
  pub per : String

pub record CompiledRule : Type 0 where
  pub name : String
  pub tools : List String
  pub args : List (String × CompiledArgValidator)
  pub reason : String
  pub rate_limit : Option CompiledRateLimit

pub record CompiledPolicy : Type 0 where
  pub allowed_surface : List String
  pub allow_rules : List CompiledRule
  pub deny_rules : List CompiledRule

-- The errors of the loader, one for each message, with the rule's name.
pub data PolicyError : Type 0 where
  decode_policy : PolicyError
  unsupported_version : String → PolicyError
  name_required : ℕ → PolicyError
  bad_action : String → PolicyError
  no_tools : String → PolicyError
  duplicate_name : String → PolicyError
  toolset_not_defined : String → String → PolicyError
  bad_arg : String → String → ArgError → PolicyError
  limit_not_allow : String → PolicyError
  limit_max_not_pos : String → PolicyError
  limit_window_unparsed : String → PolicyError
  limit_window_not_pos : String → PolicyError
  limit_per : String → PolicyError
