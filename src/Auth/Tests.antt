-- ===== src/Auth/Tests.antt =====
-- A codec for one digest, and an authenticator with one key.
use Prim.Native.String
use mcpshield.Prelude.{
  ℕ, zero, String, true, false, Option, none, some, List, [], ◌∷◌, ◌≡◌, ◌≢◌, refl, inl, ok, err,
  ◌==◌, if◌then◌else◌, eq_iff, arith,
}
use mcpshield.Config.{AuthKeyConfig, AuthConfig}
use mcpshield.Auth.{
  Digest, api_key, same_bytes, scan, text_digest, key_digest, add_key, add_keys,
  new_api_key_authenticator, collect_keys, build_api_key, build_auth, new_key_hash, client_at,
  client_found, token_client, authenticate,
}
use mcpshield.Auth.Accept.{authenticate-new_key_hash}

abbrev pub bytes : ℕ → Digest
bytes b =
    b ∷ b ∷ b ∷ b ∷ b ∷ b ∷ b ∷ b ∷ b ∷ b ∷ b ∷ b ∷ b ∷ b ∷ b ∷ b ∷ b ∷ b ∷ b ∷ b ∷ b ∷ b ∷ b ∷ b
    ∷ b ∷ b ∷ b ∷ b ∷ b ∷ b ∷ b ∷ b ∷ []

-- two digests, one of the token "secret" and one of any other text
abbrev pub toy_sum : String → Digest
toy_sum t = if t == "secret" then bytes 7 else bytes 0

abbrev pub toy_decode : String → Option Digest
toy_decode s = if s == "seven" then some (bytes 7) else if s == "zero" then some (bytes 0) else none

abbrev toy_encode : Digest → String
toy_encode [] = ""
toy_encode (zero ∷ d) = "zero"
toy_encode (b ∷ d) = "seven"

abbrev pub alice_key : AuthKeyConfig
alice_key = record { id = "first"; key_hash = "sha256:seven"; client_id = "alice" }

abbrev pub keyed_config : AuthConfig
keyed_config = record { kind = "api_key"; keys = alice_key ∷ [] }

abbrev pub alice_keys : List (String × String)
alice_keys = ("sha256:seven", "alice") ∷ []

keyed_built :
    build_auth toy_decode keyed_config false
    ≡ ok (api_key (new_api_key_authenticator toy_decode alice_keys))
unfolding build_auth build_api_key collect_keys
keyed_built = refl

alice_passes :
    authenticate toy_sum (api_key (new_api_key_authenticator toy_decode alice_keys)) "Bearer secret"
    ≡ ok "alice"
unfolding authenticate token_client new_api_key_authenticator add_keys add_key key_digest
    text_digest scan same_bytes client_found client_at
alice_passes = refl

stranger_refused :
    authenticate toy_sum (api_key (new_api_key_authenticator toy_decode alice_keys)) "Bearer other"
    ≡ err "invalid API key"
unfolding authenticate token_client new_api_key_authenticator add_keys add_key key_digest
    text_digest scan same_bytes client_found client_at
stranger_refused = refl

alice_hash : "sha256:seven" ≡ new_key_hash toy_sum toy_encode "secret"
unfolding new_key_hash
alice_hash = refl

secret_given : ◌≢◌ {A = String} "secret" ""
secret_given same = let e : false ≡ true = (eq_iff "secret" "").1 same in ground (arith, e)

authenticate-new_key_hash_example :
    authenticate toy_sum
      (api_key (new_api_key_authenticator toy_decode alice_keys))
      (String.◌++◌ "Bearer " "secret")
    ≡ ok "alice"
authenticate-new_key_hash_example =
    authenticate-new_key_hash toy_decode toy_sum toy_encode alice_keys "secret" "alice" refl refl
      secret_given (inl (alice_hash, refl)) ((λ same. refl), tt)
