-- ===== src/Config/Shared.antt =====
-- Names that are distinct, and settings that are the least of several: what the loop of
-- `buildUpstreamRuntime` in pkg/config/config.go keeps.
use mcpshield.Prelude.{
  String, false, Option, none, some, List, [], ◌∷◌, ◌++◌, map, ℤ, pos_part, ◌≡◌, refl, ap, arith,
  ◌==◌, Bool-cases, inl, inr, ◌≤◌, All, All-append, All-imp, Any, contains, ◌||◌, eq_iff, ltb,
  ltb→lt, ltb→le,
}
use mcpshield.Config.{UpstreamRuntimeConfig, UpstreamManagerRuntimeConfig}
use mcpshield.Config.Build.{min_duration, manager_or_default}

-- No name occurs twice.
abbrev pub AllDistinct : List String → Type 0
AllDistinct [] = Unit
AllDistinct (x ∷ xs) = (contains xs x ≡ false) × AllDistinct xs

pub contains-snoc :
    (xs : List String) (y x : String) → contains (xs ++ y ∷ []) x ≡ (y == x || contains xs x)
contains-snoc [] y x = refl
contains-snoc (z ∷ xs) y x = ground (arith, contains-snoc xs y x)

pub AllDistinct-snoc :
    (xs : List String) (y : String)
    → contains xs y ≡ false
    → AllDistinct xs
    → AllDistinct (xs ++ y ∷ [])
AllDistinct-snoc [] y fresh d = (refl, tt)
AllDistinct-snoc (x ∷ xs) y fresh (this, d) = (
  ground (arith, contains-snoc xs y x, fresh, this, eq_iff x y, eq_iff y x),
  AllDistinct-snoc xs y (ground (arith, fresh)) d,
)

pub map-snoc {ℓ κ} :
    {A : Type ℓ} {B : Type κ} (f : A → B) (xs : List A) (y : A)
    → map f (xs ++ y ∷ []) ≡ map f xs ++ f y ∷ []
map-snoc f [] y = refl
map-snoc f (x ∷ xs) y = ap (◌∷◌ (f x)) (map-snoc f xs y)

-- The setting is the least one of the upstreams.
abbrev pub IsLeast : (UpstreamRuntimeConfig → ℤ) → List UpstreamRuntimeConfig → ℤ → Type 0
IsLeast setting rs least =
    All (λ r. pos_part least ≤ pos_part (setting r)) rs × Any (λ r. setting r ≡ least) rs

Any-append_left :
    (P : UpstreamRuntimeConfig → Type 0) (xs ys : List UpstreamRuntimeConfig)
    → Any P xs
    → Any P (xs ++ ys)
Any-append_left P [] ys h = absurd h
Any-append_left P (x ∷ xs) ys (inl h) = inl h
Any-append_left P (x ∷ xs) ys (inr h) = inr (Any-append_left P xs ys h)

Any-append_right :
    (P : UpstreamRuntimeConfig → Type 0) (xs ys : List UpstreamRuntimeConfig)
    → Any P ys
    → Any P (xs ++ ys)
Any-append_right P [] ys h = h
Any-append_right P (x ∷ xs) ys h = inr (Any-append_right P xs ys h)

-- one more upstream, whose setting takes part in the minimum
pub min_duration-IsLeast :
    (setting : UpstreamRuntimeConfig → ℤ) (rs : List UpstreamRuntimeConfig)
    (r : UpstreamRuntimeConfig) (m : ℤ)
    → IsLeast setting rs m
    → IsLeast setting (rs ++ r ∷ []) (min_duration m (setting r))
unfolding min_duration
min_duration-IsLeast setting rs r m (below, attained) =
    elim (Bool-cases (ltb (pos_part (setting r)) (pos_part m))) [
      | inl less ↦ rw less (
        All-append _ rs (r ∷ [])
            (All-imp (λ x le. omega (arith, le, ltb→lt (pos_part (setting r)) (pos_part m) less)) rs
              below)
            (omega arith, tt),
        Any-append_right _ rs (r ∷ []) (inl refl),
      )
      | inr not_less ↦ rw not_less (
        All-append _ rs (r ∷ []) below (ltb→le (pos_part (setting r)) (pos_part m) not_less, tt),
        Any-append_left _ rs (r ∷ []) attained,
      )
    ]

-- The settings that the upstreams share: the least ones, or the defaults without an upstream.
abbrev pub SharedIsSound : List UpstreamRuntimeConfig → UpstreamManagerRuntimeConfig → Type 0
SharedIsSound [] m = m ≡ manager_or_default none
SharedIsSound (r ∷ rs) m =
    IsLeast (λ r. r.tools_cache_ttl) (r ∷ rs) m.tools_cache_ttl
    × IsLeast (λ r. r.refresh_timeout) (r ∷ rs) m.refresh_timeout

abbrev pub MergedSound : List UpstreamRuntimeConfig → Option UpstreamManagerRuntimeConfig → Type 0
MergedSound rs none = rs ≡ []
MergedSound rs (some m) =
    IsLeast (λ r. r.tools_cache_ttl) rs m.tools_cache_ttl
    × IsLeast (λ r. r.refresh_timeout) rs m.refresh_timeout
