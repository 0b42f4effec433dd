-- ===== src/Auth/Keys.antt =====
-- The keys that internal/auth/auth.go holds, as one list of pairs, and its scan of them.
use mcpshield.Prelude.{
  ℕ, suc, String, Bool, true, false, Option, none, some, List, [], ◌∷◌, ◌++◌, ◌+◌, map, ◌≡◌, refl,
  sym, ap, ◌∙◌, subst, ◌⊎◌, inl, inr, append-nil, if◌then◌else◌, arith, Result, ok, err,
}
use mcpshield.Auth.{
  Digest, ApiKeys, get_elem?, same_bytes, scan, key_digest, add_key, add_keys,
  new_api_key_authenticator, client_found, client_at,
}

-- The two parallel slices of a list of pairs.
abbrev pub of_pairs : List (Digest × String) → ApiKeys
of_pairs ps = record { hashes = map (λ p. p.0) ps; client_ids = map (λ p. p.1) ps }

abbrev pub with_digest : Option Digest → String → List (Digest × String)
with_digest none client = []
with_digest (some d) client = (d, client) ∷ []

-- The client of the last pair with the digest, or `o` if none has it.
abbrev pub last_client : Digest → List (Digest × String) → Option String → Option String
last_client sum [] o = o
last_client sum ((d, client) ∷ ps) o =
    last_client sum ps (if same_bytes sum d then some client else o)

-- The index found stands for the client found.
abbrev Agrees : List String → Option ℕ → Option String → Type 0
Agrees clients found o =
    ((found ≡ none) × (o ≡ none))
    ⊎ ((i : ℕ) × (client : String) × (found ≡ some i)
        × (get_elem? clients i ≡ some client)
        × (o ≡ some client))

map-append {ℓ κ} :
    {A : Type ℓ} {B : Type κ} (f : A → B) (xs ys : List A) → map f (xs ++ ys) ≡ map f xs ++ map f ys
map-append f [] ys = refl
map-append f (x ∷ xs) ys = ap (◌∷◌ (f x)) (map-append f xs ys)

append_assoc {ℓ} : {A : Type ℓ} (xs ys zs : List A) → (xs ++ ys) ++ zs ≡ xs ++ (ys ++ zs)
append_assoc [] ys zs = refl
append_assoc (x ∷ xs) ys zs = ap (◌∷◌ x) (append_assoc xs ys zs)

zero_plus : (j : ℕ) → j ≡ 0 + j
zero_plus j = omega arith

-- From the index `i` on, the clients are those of the pairs.
abbrev FromIndex : List String → ℕ → List (Digest × String) → Type 0
FromIndex clients i ps = (j : ℕ) → get_elem? (map (λ p. p.1) ps) j ≡ get_elem? clients (i + j)

found-Agrees :
    (clients : List String) (i : ℕ) (client : String) (b : Bool) (found : Option ℕ)
    (o : Option String)
    → get_elem? clients i ≡ some client
    → Agrees clients found o
    → Agrees clients (if b then some i else found) (if b then some client else o)
found-Agrees clients i client true found o here h = inr (i, client, refl, here, refl)
found-Agrees clients i client false found o here h = h

scan-Agrees :
    (sum : Digest) (clients : List String) (ps : List (Digest × String)) (i : ℕ) (found : Option ℕ)
    (o : Option String)
    → FromIndex clients i ps
    → Agrees clients found o
    → Agrees clients (scan sum (map (λ p. p.0) ps) i found) (last_client sum ps o)
unfolding scan
scan-Agrees sum clients [] i found o from h = h
scan-Agrees sum clients ((d, client) ∷ ps) i found o from h =
    scan-Agrees sum clients ps (suc i) (if same_bytes sum d then some i else found)
      (if same_bytes sum d then some client else o)
      (λ j. from (suc j) ∙ ap (get_elem? clients) (omega arith))
      (found-Agrees clients i client (same_bytes sum d) found o
        (sym (from 0 ∙ ap (get_elem? clients) (omega arith))) h)

-- What a found client, or none, comes to.
abbrev pub client_or_invalid : Option String → Result String String
client_or_invalid none = err "invalid API key"
client_or_invalid (some client) = ok client

Agrees-client_found :
    (a : ApiKeys) (found : Option ℕ) (o : Option String)
    → Agrees a.client_ids found o
    → client_found a found ≡ client_or_invalid o
unfolding client_found client_at
Agrees-client_found a found o (inl (nothing, none_)) = rw nothing (rw none_ refl)
Agrees-client_found a found o (inr (i, client, at, here, some_)) = rw at (rw here (rw some_ refl))

-- The scan by index finds the client of the last pair with the digest, and no index that it finds
-- is out of range.
pub scan-last_client :
    (sum : Digest) (ps : List (Digest × String))
    → client_found (of_pairs ps) (scan sum (map (λ p. p.0) ps) 0 none)
      ≡ client_or_invalid (last_client sum ps none)
scan-last_client sum ps =
    Agrees-client_found (of_pairs ps) (scan sum (map (λ p. p.0) ps) 0 none)
      (last_client sum ps none)
      (scan-Agrees sum (map (λ p. p.1) ps) ps 0 none none
        (λ j.
          subst (λ n. get_elem? (map (λ p. p.1) ps) j ≡ get_elem? (map (λ p. p.1) ps) n)
            (zero_plus j) refl)
        (inl (refl, refl)))

module _ (decode_hex : String → Option Digest) where
  -- The entries that are not skipped, with their digests.
  abbrev pub usable : List (String × String) → List (Digest × String)
  usable [] = []
  usable ((hash, client) ∷ keys) = with_digest (key_digest decode_hex hash) client ++ usable keys

  add_key-of_pairs :
      (d : Option Digest) (client : String) (ps : List (Digest × String))
      → add_key d client (of_pairs ps) ≡ of_pairs (ps ++ with_digest d client)
  unfolding add_key
  add_key-of_pairs none client ps = rw (append-nil ps) refl
  add_key-of_pairs (some d) client ps =
      rw
        (
          map-append (λ (p : Digest × String). p.0) ps ((d, client) ∷ []),
          map-append (λ (p : Digest × String). p.1) ps ((d, client) ∷ []),
        )
        refl

  add_keys-of_pairs :
      (keys : List (String × String)) (ps : List (Digest × String))
      → add_keys decode_hex keys (of_pairs ps) ≡ of_pairs (ps ++ usable keys)
  unfolding add_keys
  add_keys-of_pairs [] ps = rw (append-nil ps) refl
  add_keys-of_pairs ((hash, client) ∷ keys) ps =
      let here = with_digest (key_digest decode_hex hash) client in
      ap (add_keys decode_hex keys) (add_key-of_pairs (key_digest decode_hex hash) client ps)
      ∙ add_keys-of_pairs keys (ps ++ here)
      ∙ ap of_pairs (append_assoc ps here (usable keys))

  -- The authenticator holds the usable entries, in the order in which the map gave them.
  pub new_keys-usable :
      (keys : List (String × String))
      → new_api_key_authenticator decode_hex keys ≡ of_pairs (usable keys)
  unfolding new_api_key_authenticator
  new_keys-usable keys = add_keys-of_pairs keys []
