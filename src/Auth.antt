-- ===== src/Auth.antt =====
-- internal/auth/auth.go, and `buildAuth` of cmd/mcpshield/main.go. A digest is the list of its
-- bytes. SHA-256 and the hex codec are the parameters `sum256`, `encode_hex` and `decode_hex`.
mod Found
mod Keys
pub mod Listed
pub mod Accept
pub mod Tests
use Prim.Native.String
use text.Mathlib.Text.{starts_with}
use mcpshield.Prelude.{
  ℕ, zero, suc, String, len, Bool, true, false, ◌&&◌, Option, none, some, List, [], ◌∷◌, ◌++◌, eqb,
  if◌then◌else◌, ◌==◌, Result, ok, err, ◌>>=◌, insert, is_empty, not, length,
}
use mcpshield.Config.{AuthKeyConfig, AuthConfig}

abbrev pub Digest : Type 0
Digest = List ℕ

-- `strings.CutPrefix`
abbrev pub cut_prefix : String → String → Option String
cut_prefix s p = if starts_with s p then some (String.slice s (len p) (len s)) else none

-- `subtle.ConstantTimeCompare(x, y) == 1`
unfoldable pub same_bytes : Digest → Digest → Bool
same_bytes [] [] = true
same_bytes [] (y ∷ ys) = false
same_bytes (x ∷ xs) [] = false
same_bytes (x ∷ xs) (y ∷ ys) = eqb x y && same_bytes xs ys

-- `xs[i]`
abbrev pub get_elem? {ℓ} : {A : Type ℓ} → List A → ℕ → Option A
get_elem? [] i = none
get_elem? (x ∷ xs) zero = some x
get_elem? (x ∷ xs) (suc i) = get_elem? xs i

-- `apiKeyAuthenticator`: the two slices are parallel.
pub record ApiKeys : Type 0 where
  pub hashes : List Digest
  pub client_ids : List String

-- The two implementations of `Authenticator`.
pub data Authenticator : Type 0 where
  allow_all : Authenticator
  api_key : ApiKeys → Authenticator

pub data AuthConfigError : Type 0 where
  keys_required anonymous_not_allowed type_required : AuthConfigError
  key_hash_required client_id_required : String → AuthConfigError

abbrev pub no_keys : ApiKeys
no_keys = record { hashes = []; client_ids = [] }

-- the scan over all the hashes, from the index `i` on, with the index found so far
unfoldable pub scan : Digest → List Digest → ℕ → Option ℕ → Option ℕ
scan sum [] i found = found
scan sum (h ∷ hs) i found = scan sum hs (suc i) (if same_bytes sum h then some i else found)

-- `a.clientIDs[found]`; an index out of range, which would panic in Go, is an error here
unfoldable pub client_at : Option String → Result String String
client_at none = err "index out of range"
client_at (some client) = ok client

unfoldable pub client_found : ApiKeys → Option ℕ → Result String String
unfolding client_at
client_found a none = err "invalid API key"
client_found a (some i) = client_at (get_elem? a.client_ids i)

unfoldable pub add_key : Option Digest → String → ApiKeys → ApiKeys
add_key none client a = a
add_key (some d) client a = record {
  hashes = a.hashes ++ d ∷ [];
  client_ids = a.client_ids ++ client ∷ [];
}

-- the loop of `buildAuth` over the configured keys
unfoldable pub collect_keys :
    List AuthKeyConfig → List (String × String) → Result AuthConfigError (List (String × String))
collect_keys [] keys = ok keys
collect_keys (k ∷ ks) keys =
    let rest = collect_keys ks (insert k.key_hash k.client_id keys) in
    if k.key_hash == ""
    then err (key_hash_required k.id)
    else if k.client_id == ""
    then err (client_id_required k.id)
    else rest

module _ (decode_hex : String → Option Digest) where
  -- the digest in the text of a key hash
  unfoldable pub text_digest : Option String → Option Digest
  text_digest none = none
  text_digest (some text) = elim (decode_hex text) [
    | none ↦ none
    | some raw ↦ if eqb (length raw) 32 then some raw else none
  ]

  -- the digest of an entry, or none for an entry that the constructor skips
  unfoldable pub key_digest : String → Option Digest
  unfolding text_digest
  key_digest hash = text_digest (cut_prefix hash "sha256:")

  -- the loop of `NewAPIKeyAuthenticator`
  unfoldable pub add_keys : List (String × String) → ApiKeys → ApiKeys
  add_keys [] a = a
  add_keys ((hash, client) ∷ keys) a = add_keys keys (add_key (key_digest hash) client a)

  unfoldable pub new_api_key_authenticator : List (String × String) → ApiKeys
  new_api_key_authenticator keys = add_keys keys no_keys

  -- the case "api_key" of `buildAuth`
  unfoldable pub build_api_key : List AuthKeyConfig → Result AuthConfigError Authenticator
  build_api_key ks =
      if is_empty ks
      then err keys_required
      else (collect_keys ks [] >>= λ keys. ok (api_key (new_api_key_authenticator keys)))

  -- `buildAuth`
  unfoldable pub build_auth : AuthConfig → Bool → Result AuthConfigError Authenticator
  build_auth cfg insecure_allow_anonymous =
      if cfg.kind == "api_key"
      then build_api_key cfg.keys
      else if cfg.kind == "none"
      then (if not insecure_allow_anonymous then err anonymous_not_allowed else ok allow_all)
      else err type_required

module _ (sum256 : String → Digest) where
  -- `NewKeyHash`
  unfoldable pub new_key_hash : (Digest → String) → String → String
  new_key_hash encode_hex token = String.◌++◌ "sha256:" (encode_hex (sum256 token))

  unfoldable pub token_client : ApiKeys → Option String → Result String String
  unfolding client_found
  token_client a none = err "missing Bearer token"
  token_client a (some token) =
      if token == ""
      then err "missing Bearer token"
      else client_found a (scan (sum256 token) a.hashes zero none)

  -- `Authenticate` of both implementations; `header` is the header Authorization
  unfoldable pub authenticate : Authenticator → String → Result String String
  unfolding token_client
  authenticate allow_all header = ok "anonymous"
  authenticate (api_key a) header = token_client a (cut_prefix header "Bearer ")
