-- ===== src/Policy/Validator.antt =====
-- internal/policy/validator.go. The regexp package is the parameter `compile_re`: a compiled
-- expression is only ever used through `MatchString`, and is that function.
pub mod Laws
use mcpshield.Prelude.{
  String, len, Result, ok, err, Bool, true, false, not, ◌&&◌, Option, none, some, List, [], ◌∷◌, ℤ,
  is_pos, pos_part, contains, ltb, if◌then◌else◌, ◌==◌,
}
use mcpshield.Mcp.{Json, str}

abbrev pub Matcher : Type 0
Matcher = String → Bool

pub record ArgValidator : Type 0 where
  pub match : String
  pub not_match : String
  pub one_of : List String
  pub max_len : ℤ

pub record CompiledArgValidator : Type 0 where
  pub raw : ArgValidator
  pub match_re : Option Matcher
  pub not_match_re : Option Matcher

-- The errors of `newCompiledArgValidator`, by the prefix that wraps them.
pub data ArgError : Type 0 where
  bad_match bad_not_match : ArgError

module _ (compile_re : String → Option Matcher) where
  -- the second `if` of `newCompiledArgValidator`
  compile_not_match : ArgValidator → Option Matcher → Result ArgError CompiledArgValidator
  compile_not_match av m =
      if av.not_match == ""
      then ok (record { raw = av; match_re = m; not_match_re = none })
      else (elim (compile_re av.not_match) [
        | none ↦ err bad_not_match
        | some re ↦ ok (record { raw = av; match_re = m; not_match_re = some re })
      ])

  unfoldable pub new_compiled_arg_validator : ArgValidator → Result ArgError CompiledArgValidator
  unfolding compile_not_match
  new_compiled_arg_validator av =
      if av.match == "" then compile_not_match av none else (elim (compile_re av.match) [
        | none ↦ err bad_match
        | some re ↦ compile_not_match av (some re)
      ])

-- `re != nil && re.MatchString(s)`
abbrev pub hits : Option Matcher → String → Bool
hits none s = false
hits (some re) s = re s

-- `re != nil && !re.MatchString(s)`
abbrev pub misses : Option Matcher → String → Bool
misses none s = false
misses (some re) s = not (re s)

-- `len(list) > 0`, and the loop that looks for `s`
abbrev pub not_one_of : List String → String → Bool
not_one_of [] s = false
not_one_of (o ∷ os) s = not (contains (o ∷ os) s)

unfoldable pub validate : CompiledArgValidator → Json → Bool
validate v (str s) =
    if misses v.match_re s
    then false
    else if hits v.not_match_re s
    then false
    else if not_one_of v.raw.one_of s
    then false
    else if is_pos v.raw.max_len && ltb (pos_part v.raw.max_len) (len s)
    then false
    else true
validate v _ = false
