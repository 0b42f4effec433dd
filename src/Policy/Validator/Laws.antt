-- ===== src/Policy/Validator/Laws.antt =====
-- What a validator accepts, and what compiling one keeps (internal/policy/validator.go).
use mcpshield.Prelude.{
  ℕ, suc, ◌≤◌, String, len, ◌≡◌, refl, ◌≢◌, ◌↔◌, Bool, true, false, Option, none, some, List, [],
  ◌∷◌, ℤ, pos, negsuc, contains, ltb, arith, is_pos, pos_part, if◌then◌else◌,
}
use mcpshield.Mcp.{Json, str}
use mcpshield.Policy.Validator.{Matcher, CompiledArgValidator, hits, misses, not_one_of, validate}

-- The four constraints, each only where it is configured.
pub record Accepts (v : CompiledArgValidator) (s : String) : Type 0 where
  pub matches : (re : Matcher) → v.match_re ≡ some re → re s ≡ true
  pub avoids : (re : Matcher) → v.not_match_re ≡ some re → re s ≡ false
  pub listed : v.raw.one_of ≢ [] → contains v.raw.one_of s ≡ true
  pub short : (m : ℕ) → v.raw.max_len ≡ pos (suc m) → len s ≤ suc m

misses_iff :
    (m : Option Matcher) (s : String)
    → (misses m s ≡ false) ↔ ((re : Matcher) → m ≡ some re → re s ≡ true)
misses_iff none s = (λ h re e. cc, λ h. refl)
misses_iff (some re) s = (λ h re' e. ground arith, λ h. ground (arith, h re))

hits_iff :
    (m : Option Matcher) (s : String)
    → (hits m s ≡ false) ↔ ((re : Matcher) → m ≡ some re → re s ≡ false)
hits_iff none s = (λ h re e. cc, λ h. refl)
hits_iff (some re) s = (λ h re' e. ground arith, λ h. ground (arith, h re))

not_one_of_iff :
    (os : List String) (s : String) → (not_one_of os s ≡ false) ↔ (os ≢ [] → contains os s ≡ true)
not_one_of_iff [] s = (λ h n. absurd (n refl), λ h. refl)
not_one_of_iff (o ∷ os) s = (λ h n. ground arith, λ h. ground (arith, h (λ e. cc)))

too_long : ℤ → String → Bool
too_long m s = if is_pos m then ltb (pos_part m) (len s) else false

too_long_iff :
    (m : ℤ) (s : String) → (too_long m s ≡ false) ↔ ((n : ℕ) → m ≡ pos (suc n) → len s ≤ suc n)
unfolding too_long
too_long_iff (pos ℕ.zero) s = (λ h n e. cc, λ h. refl)
too_long_iff (pos (suc k)) s = (λ h n e. ground arith, λ h. ground (arith, h k))
too_long_iff (negsuc n) s = (λ h n e. cc, λ h. refl)

validate-str :
    (v : CompiledArgValidator) (s : String)
    → (validate v (str s) ≡ true) ↔ (
        (misses v.match_re s ≡ false)
        × (hits v.not_match_re s ≡ false)
        × (not_one_of v.raw.one_of s ≡ false)
        × (too_long v.raw.max_len s ≡ false))
unfolding validate too_long
validate-str v s = ground arith

validate-Accepts : (v : CompiledArgValidator) (s : String) → validate v (str s) ≡ true → Accepts v s
validate-Accepts v s h =
    let (m, a, l, t) = (validate-str v s).0 h in
    record {
      matches = (misses_iff v.match_re s).0 m;
      avoids = (hits_iff v.not_match_re s).0 a;
      listed = (not_one_of_iff v.raw.one_of s).0 l;
      short = (too_long_iff v.raw.max_len s).0 t;
    }

Accepts-validate : (v : CompiledArgValidator) (s : String) → Accepts v s → validate v (str s) ≡ true
Accepts-validate v s a = (validate-str v s).1 (
  (misses_iff v.match_re s).1 a.matches,
  (hits_iff v.not_match_re s).1 a.avoids,
  (not_one_of_iff v.raw.one_of s).1 a.listed,
  (too_long_iff v.raw.max_len s).1 a.short,
)

-- only strings pass
validate_string :
    (v : CompiledArgValidator) (val : Json) → validate v val ≡ true → (s : String) × (val ≡ str s)
unfolding validate
validate_string v (str s) h = (s, refl)
validate_string v val h = cc

-- `Validate` accepts exactly the strings that meet every configured constraint: the value
-- matches `match`, does not match `not_match`, is one of a non-empty `one_of`, and is no longer
-- than a positive `max_len`. It accepts no value of another type.
pub validate_iff :
    (v : CompiledArgValidator) (val : Json)
    → (validate v val ≡ true) ↔ ((s : String) × (val ≡ str s) × Accepts v s)
validate_iff v val = (
  λ h. let (s, e) = validate_string v val h in (s, e, validate-Accepts v s (rw e at h)),
  λ (s, e, a). rw e (Accepts-validate v s a),
)
