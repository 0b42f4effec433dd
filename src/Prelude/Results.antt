-- ===== src/Prelude/Results.antt =====
-- Go's `(value, error)` results, for a type of errors that each component declares.
use mathlib.Core.Path.{◌≡◌, refl, subst}
use mathlib.Core.Logic.{◌⊎◌, inl, inr}

pub data Result {ℓ κ} (E : Type ℓ) (A : Type κ) : Type (ℓ ⊔ κ) where
  err : E → Result E A
  ok : A → Result E A

-- To split on a computed result and keep the equation.
pub Result-cases {ℓ κ} :
    {E : Type ℓ} {A : Type κ} (r : Result E A) → ((a : A) × (r ≡ ok a)) ⊎ ((e : E) × (r ≡ err e))
Result-cases (err e) = inr (e, refl)
Result-cases (ok a) = inl (a, refl)

module _ {ℓ κ μ} {E : Type ℓ} {A : Type κ} {B : Type μ} where
  infixl 5 ◌>>=◌
  -- `if err != nil { return …, err }`
  abbrev pub ◌>>=◌ : Result E A → (A → Result E B) → Result E B
  err e >>= next = err e
  ok a >>= next = next a

  -- Inversion of a chain that succeeds.
  pub >>=-eq-ok :
      (r : Result E A) (next : A → Result E B) {b : B}
      → (r >>= next) ≡ ok b
      → (a : A) × (r ≡ ok a) × (next a ≡ ok b)
  >>=-eq-ok (err e) next h = cc
  >>=-eq-ok (ok a) next h = (a, refl, h)

pub ok_injective {ℓ κ} :
    {E : Type ℓ} {A : Type κ} {a b : A} → ◌≡◌ {A = Result E A} (ok a) (ok b) → a ≡ b
ok_injective h = cc

-- What a result holds, if it holds one, has the property.
pub record Ensures {ℓ κ μ} {E : Type ℓ} {A : Type κ} (P : A → Type μ) (r : Result E A)
    : Type (ℓ ⊔ κ ⊔ μ) where
  pub holds : (a : A) → r ≡ ok a → P a

-- A chain ensures what its last step does, which may rely on what the first step ensures.
pub ensure {ℓ κ μ ν ξ} :
    {E : Type ℓ} {A : Type κ} {B : Type μ} {P : A → Type ν} {Q : B → Type ξ} {r : Result E A}
    {next : A → Result E B}
    → Ensures P r
    → ((a : A) → P a → Ensures Q (next a))
    → Ensures Q (r >>= next)
ensure {r = r} {next = next} first rest = record {
  holds =
      λ b h. let (a, done, last) = >>=-eq-ok r next h in (rest a (first.holds a done)).holds b last;
}

pub ensure_ok {ℓ κ μ} :
    {E : Type ℓ} {A : Type κ} {P : A → Type μ} {a : A} → P a → Ensures {E = E} P (ok a)
ensure_ok {P = P} p = record { holds = λ b h. subst P (ok_injective h) p }

-- Nothing is asked of the result.
pub ensure_any {ℓ κ} : {E : Type ℓ} {A : Type κ} (r : Result E A) → Ensures (λ (_ : A). Unit {0}) r
ensure_any r = record { holds = λ a h. tt }

pub ensure_err {ℓ κ μ} : {E : Type ℓ} {A : Type κ} {P : A → Type μ} (e : E) → Ensures P (err e)
ensure_err e = record { holds = λ a h. absurd (cc) }
