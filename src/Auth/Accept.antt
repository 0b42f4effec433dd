-- ===== src/Auth/Accept.antt =====
-- Which requests the authenticators of internal/auth/auth.go accept.
use Prim.Native.String
use mcpshield.Prelude.{
  String, Bool, true, Option, none, some, List, [], ◌∷◌, ◌++◌, ok, insert, length, ◌≡◌, ◌≢◌, refl,
  sym, ap, ◌∙◌, subst, inl, inr, ◌⊎◌, Any, All, arith, eq_iff, ok_injective, >>=-eq-ok,
}
use mcpshield.Config.{AuthKeyConfig, AuthConfig}
use mcpshield.Auth.{
  Digest, Authenticator, allow_all, api_key, text_digest, key_digest, collect_keys, build_api_key,
  build_auth, new_api_key_authenticator, new_key_hash, authenticate,
}
use mcpshield.Auth.Keys.{usable, client_or_invalid, with_digest}
use mcpshield.Auth.Found.{
  Has, cut_prefix-append, last_client-one, with_digest-All, Has-append, insert-Any,
}
use mcpshield.Auth.Listed.{Keyed, token_client-last, authenticate-listed}

-- The configuration switched authentication off: it says so twice.
abbrev pub Open : AuthConfig → Bool → String → Type 0
Open cfg insecure client = (cfg.kind ≡ "none") × (insecure ≡ true) × (client ≡ "anonymous")

module _ (decode_hex : String → Option Digest) (sum256 : String → Digest) where
  -- what `buildAuth` collects comes from the configured keys
  collect_keys-Any :
      (P : String × String → Type 0) (ks : List AuthKeyConfig) (m keys : List (String × String))
      → collect_keys ks m ≡ ok keys
      → Any P keys
      → Any P m ⊎ Any (λ k. P (k.key_hash, k.client_id)) ks
  unfolding collect_keys
  collect_keys-Any P [] m keys h any_ = inl (subst (Any P) (sym (ok_injective h)) any_)
  collect_keys-Any P (k ∷ ks) m keys h any_ =
      let rest : collect_keys ks (insert k.key_hash k.client_id m) ≡ ok keys = ground (arith, h) in
      elim (collect_keys-Any P ks (insert k.key_hash k.client_id m) keys rest any_) [
        | inr later ↦ inr (inr later)
        | inl held ↦ elim (insert-Any P k.key_hash k.client_id m held) [
          | inl this ↦ inr (inl this)
          | inr old ↦ inl old
        ]
      ]

  build_api_key-keys :
      (ks : List AuthKeyConfig) (a : Authenticator)
      → build_api_key decode_hex ks ≡ ok a
      → (keys : List (String × String)) × (collect_keys ks [] ≡ ok keys)
        × (a ≡ api_key (new_api_key_authenticator decode_hex keys))
  unfolding build_api_key
  build_api_key-keys [] a h = absurd (ground (arith, h))
  build_api_key-keys (k ∷ ks) a h =
      let (keys, collected, built) =
        >>=-eq-ok (collect_keys (k ∷ ks) [])
          (λ keys. ok (api_key (new_api_key_authenticator decode_hex keys))) h in
      (keys, collected, sym (ok_injective built))

  build_auth-cases :
      (cfg : AuthConfig) (insecure : Bool) (a : Authenticator)
      → build_auth decode_hex cfg insecure ≡ ok a
      → ((cfg.kind ≡ "none") × (insecure ≡ true) × (a ≡ allow_all))
        ⊎ (build_api_key decode_hex cfg.keys ≡ ok a)
  unfolding build_auth
  build_auth-cases cfg insecure a h = ground (arith, h, eq_iff cfg.kind "none")

  anonymous :
      (a : Authenticator) (header client : String)
      → a ≡ allow_all
      → authenticate sum256 a header ≡ ok client
      → "anonymous" ≡ client
  unfolding authenticate
  anonymous a header client every passed =
      ok_injective {E = String} (ap (λ x. authenticate sum256 x header) (sym every) ∙ passed)

  -- what the constructor keeps of the entries
  usable-All :
      (sum : Digest) (client : String) (keys : List (String × String))
      → All (λ (e : String × String). key_digest decode_hex e.0 ≡ some sum → e.1 ≡ client) keys
      → All (λ (p : Digest × String). p.0 ≡ sum → p.1 ≡ client) (usable decode_hex keys)
  usable-All sum client [] h = tt
  usable-All sum client ((hash, c) ∷ keys) (this, later) =
      with_digest-All sum client (key_digest decode_hex hash) c (usable decode_hex keys) this
        (usable-All sum client keys later)

  text_digest-some :
      (text : String) (d : Digest)
      → decode_hex text ≡ some d
      → length d ≡ 32
      → text_digest decode_hex (some text) ≡ some d
  unfolding text_digest
  text_digest-some text d codec size = ground (arith, codec, size)

  key_digest-new_key_hash :
      (encode_hex : Digest → String) (token : String)
      → decode_hex (encode_hex (sum256 token)) ≡ some (sum256 token)
      → length (sum256 token) ≡ 32
      → key_digest decode_hex (new_key_hash sum256 encode_hex token) ≡ some (sum256 token)
  unfolding key_digest new_key_hash
  key_digest-new_key_hash encode_hex token codec size =
      ap (text_digest decode_hex) (cut_prefix-append "sha256:" (encode_hex (sum256 token)))
      ∙ text_digest-some (encode_hex (sum256 token)) (sum256 token) codec size

  usable-Has :
      (encode_hex : Digest → String) (keys : List (String × String)) (token client : String)
      → decode_hex (encode_hex (sum256 token)) ≡ some (sum256 token)
      → length (sum256 token) ≡ 32
      → Any
          (λ (e : String × String). (e.0 ≡ new_key_hash sum256 encode_hex token) × (e.1 ≡ client))
          keys
      → Has (sum256 token) client (usable decode_hex keys)
  usable-Has encode_hex [] token client codec size h = absurd h
  usable-Has encode_hex ((hash, c) ∷ keys) token client codec size (inl (this, mine)) =
      let digest : key_digest decode_hex hash ≡ some (sum256 token) =
        ap (key_digest decode_hex) this ∙ key_digest-new_key_hash encode_hex token codec size in
      subst (λ o. Has (sum256 token) client (with_digest o c ++ usable decode_hex keys))
        (sym digest) (inl (refl, mine))
  usable-Has encode_hex ((hash, c) ∷ keys) token client codec size (inr later) =
      Has-append (sum256 token) client (with_digest (key_digest decode_hex hash) c)
        (usable decode_hex keys) (usable-Has encode_hex keys token client codec size later)

  -- Under the authenticator that the configuration leads to, a request passes as a client only with
  -- a bearer token whose digest a configured key of that client has, unless the configuration
  -- switches authentication off, twice, and the client is "anonymous".
  pub build_auth-Keyed :
      (cfg : AuthConfig) (insecure : Bool) (a : Authenticator) (header client : String)
      → build_auth decode_hex cfg insecure ≡ ok a
      → authenticate sum256 a header ≡ ok client
      → Keyed decode_hex sum256
          (λ (k : AuthKeyConfig). k.key_hash)
          (λ k. k.client_id)
          cfg.keys
          header
          client
        ⊎ Open cfg insecure client
  build_auth-Keyed cfg insecure a header client built passed =
      elim (build_auth-cases cfg insecure a built) [
        | inl (none_, insecure_, every) ↦
            inr (none_, insecure_, sym (anonymous a header client every passed))
        | inr keyed ↦
            let (keys, collected, this) = build_api_key-keys cfg.keys a keyed in
            let k =
              authenticate-listed decode_hex sum256 keys header client
                (subst (λ x. authenticate sum256 x header ≡ ok client) this passed) in
            elim (collect_keys-Any
              (λ e. (key_digest decode_hex e.0 ≡ some (sum256 k.token)) × (e.1 ≡ client)) cfg.keys
              [] keys collected k.listed) [
                | inl impossible ↦ absurd impossible
                | inr listed ↦ inl (record {
                  token = k.token;
                  bearer = k.bearer;
                  given = k.given;
                  listed = listed;
                })
              ]
      ]

  -- A fresh key: a token that is hashed by `new_key_hash` into an entry of the keys is accepted for
  -- that entry's client, provided that the entries that decode to the same digest all have that
  -- client, that SHA-256 gives 32 bytes and that the hex codec reads what it wrote.
  pub authenticate-new_key_hash :
      (encode_hex : Digest → String) (keys : List (String × String)) (token client : String)
      → decode_hex (encode_hex (sum256 token)) ≡ some (sum256 token)
      → length (sum256 token) ≡ 32
      → token ≢ ""
      → Any
          (λ (e : String × String). (e.0 ≡ new_key_hash sum256 encode_hex token) × (e.1 ≡ client))
          keys
      → All
          (λ (e : String × String). key_digest decode_hex e.0 ≡ some (sum256 token) → e.1 ≡ client)
          keys
      → authenticate sum256
          (api_key (new_api_key_authenticator decode_hex keys))
          (String.◌++◌ "Bearer " token)
        ≡ ok client
  unfolding authenticate
  authenticate-new_key_hash encode_hex keys token client codec size given entry one =
      rw (cut_prefix-append "Bearer " token) (
        token_client-last decode_hex sum256 keys token given
        ∙ ap client_or_invalid (
            last_client-one (sum256 token) (usable decode_hex keys) client none
              (usable-All (sum256 token) client keys one)
              (inr (usable-Has encode_hex keys token client codec size entry))))
