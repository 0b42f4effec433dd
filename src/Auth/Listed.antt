-- ===== src/Auth/Listed.antt =====
-- The token that an authenticator of internal/auth/auth.go accepts belongs to one of its keys.
use Prim.Native.String
use mcpshield.Prelude.{
  String, Option, none, some, List, [], ◌∷◌, ◌++◌, ◌==◌, ok, ◌≡◌, ◌≢◌, refl, sym, ap, ◌∙◌, subst,
  inl, inr, ◌⊎◌, Any, arith, Bool-cases, Option-cases, eq_iff,
}
use mcpshield.Auth.{
  Digest, api_key, cut_prefix, key_digest, new_api_key_authenticator, token_client, authenticate,
}
use mcpshield.Auth.Keys.{
  last_client, usable, scan-last_client, new_keys-usable, client_or_invalid, with_digest,
}
use mcpshield.Auth.Found.{Has, cut_prefix-eq, last_client-Has}

module _ (decode_hex : String → Option Digest) (sum256 : String → Digest) where
  -- The header carries a token with the digest of an entry of the list, which belongs to the client.
  pub record Keyed {A : Type 0} (hash_of client_of : A → String) (entries : List A)
      (header client : String) : Type 0 where
    pub token : String
    pub bearer : header ≡ String.◌++◌ "Bearer " token
    pub given : token ≢ ""
    pub listed :
        Any
          (λ e. (key_digest decode_hex (hash_of e) ≡ some (sum256 token)) × (client_of e ≡ client))
          entries

  with_digest-Any :
      (sum : Digest) (client hash c : String) (rest : List (Digest × String))
      → Has sum client (with_digest (key_digest decode_hex hash) c ++ rest)
      → ((key_digest decode_hex hash ≡ some sum) × (c ≡ client)) ⊎ Has sum client rest
  with_digest-Any sum client hash c rest h = elim (Option-cases (key_digest decode_hex hash)) [
    | inl skipped ↦ inr (subst (λ o. Has sum client (with_digest o c ++ rest)) skipped h)
    | inr (d, kept) ↦ elim (subst (λ o. Has sum client (with_digest o c ++ rest)) kept h) [
      | inl (same, mine) ↦ inl (kept ∙ ap some same, mine)
      | inr later ↦ inr later
    ]
  ]

  usable-Any :
      (sum : Digest) (client : String) (keys : List (String × String))
      → Has sum client (usable decode_hex keys)
      → Any (λ e. (key_digest decode_hex e.0 ≡ some sum) × (e.1 ≡ client)) keys
  usable-Any sum client [] h = absurd h
  usable-Any sum client ((hash, c) ∷ keys) h =
      elim (with_digest-Any sum client hash c (usable decode_hex keys) h) [
        | inl this ↦ inl this
        | inr later ↦ inr (usable-Any sum client keys later)
      ]

  -- a token that is there, against the keys of the configuration
  pub token_client-last :
      (keys : List (String × String)) (token : String)
      → token ≢ ""
      → token_client sum256 (new_api_key_authenticator decode_hex keys) (some token)
        ≡ client_or_invalid (last_client (sum256 token) (usable decode_hex keys) none)
  unfolding token_client
  token_client-last keys token given = elim (Bool-cases (token == "")) [
    | inl empty ↦ absurd (given ((eq_iff token "").0 empty))
    | inr other ↦
        rw (other, new_keys-usable decode_hex keys)
          (scan-last_client (sum256 token) (usable decode_hex keys))
  ]

  authenticate-token :
      (keys : List (String × String)) (token : Option String) (client : String)
      → token_client sum256 (new_api_key_authenticator decode_hex keys) token ≡ ok client
      → (t : String) × (token ≡ some t)
        × (t ≢ "")
        × (Any (λ e. (key_digest decode_hex e.0 ≡ some (sum256 t)) × (e.1 ≡ client)) keys)
  unfolding token_client
  authenticate-token keys none client h = absurd (ground (arith, h))
  authenticate-token keys (some t) client h =
      let given : t ≢ "" = λ empty. ground (arith, h, (eq_iff t "").1 empty) in
      let found = sym (token_client-last keys t given) ∙ h in
      elim (Option-cases (last_client (sum256 t) (usable decode_hex keys) none)) [
        | inl nothing ↦ absurd (ground (arith, found, nothing))
        | inr (c, last) ↦ elim (last_client-Has (sum256 t) (usable decode_hex keys) none c last) [
          | inl impossible ↦ cc
          | inr has ↦
              let mine : c ≡ client = ground (arith, found, last) in
              (
                t,
                refl,
                given,
                usable-Any (sum256 t) client keys
                    (subst (λ x. Has (sum256 t) x (usable decode_hex keys)) mine has),
              )
        ]
      ]

  pub authenticate-listed :
      (keys : List (String × String)) (header client : String)
      → authenticate sum256 (api_key (new_api_key_authenticator decode_hex keys)) header ≡ ok client
      → Keyed (λ (e : String × String). e.0) (λ e. e.1) keys header client
  unfolding authenticate
  authenticate-listed keys header client h =
      let (t, cut, given, listed) =
        authenticate-token keys (cut_prefix header "Bearer ") client h in
      record {
        token = t;
        bearer = cut_prefix-eq header "Bearer " t cut;
        given = given;
        listed = listed;
      }
