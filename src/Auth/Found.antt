-- ===== src/Auth/Found.antt =====
-- The digests that the scan of internal/auth/auth.go finds, and the entries of the key map.
use Prim.Native.String
use text.Mathlib.Text.{starts_with}
use text.Mathlib.TextEquality.{starts_with_iff}
use text.Mathlib.TextPositions.{starts_with-append, slice-append_right, len-append}
use mcpshield.Prelude.{
  String, Bool, true, false, Option, none, some, List, [], ◌∷◌, ◌++◌, if◌then◌else◌, ◌==◌, insert,
  ◌≡◌, refl, sym, ap, ◌∙◌, subst, inl, inr, ◌⊎◌, Any, All, arith, Bool-cases,
}
use mcpshield.Auth.{Digest, cut_prefix, same_bytes}
use mcpshield.Auth.Keys.{last_client, with_digest}

same_bytes-eq : (x y : Digest) → same_bytes x y ≡ true → x ≡ y
unfolding same_bytes
same_bytes-eq [] [] h = refl
same_bytes-eq [] (y ∷ ys) h = absurd (ground arith)
same_bytes-eq (x ∷ xs) [] h = absurd (ground arith)
same_bytes-eq (x ∷ xs) (y ∷ ys) h =
    let head : x ≡ y = ground arith in let tail : xs ≡ ys = same_bytes-eq xs ys (ground arith) in cc

same_bytes_refl : (x : Digest) → same_bytes x x ≡ true
unfolding same_bytes
same_bytes_refl [] = refl
same_bytes_refl (x ∷ xs) = ground (arith, same_bytes_refl xs)

pub cut_prefix-append : (p t : String) → cut_prefix (String.◌++◌ p t) p ≡ some t
cut_prefix-append p t = rw (starts_with-append p t, len-append p t, slice-append_right p t) refl

pub cut_prefix-eq : (s p t : String) → cut_prefix s p ≡ some t → s ≡ String.◌++◌ p t
cut_prefix-eq s p t h = elim (Bool-cases (starts_with s p)) [
  | inr other ↦ absurd (ground (arith, other))
  | inl starts ↦
      let pre = (starts_with_iff s p).0 starts in
      let cut : cut_prefix s p ≡ some pre.0 =
        subst (λ v. cut_prefix v p ≡ some pre.0) pre.1 (cut_prefix-append p pre.0) in
      let same : pre.0 ≡ t = cc in sym pre.1 ∙ ap (String.◌++◌ p) same
]

-- A pair with the digest and the client.
abbrev pub Has : Digest → String → List (Digest × String) → Type 0
Has sum client = Any (λ (p : Digest × String). (p.0 ≡ sum) × (p.1 ≡ client))

pub last_client-Has :
    (sum : Digest) (ps : List (Digest × String)) (o : Option String) (client : String)
    → last_client sum ps o ≡ some client
    → (o ≡ some client) ⊎ Has sum client ps
last_client-Has sum [] o client h = inl h
last_client-Has sum ((d, c) ∷ ps) o client h =
    elim (last_client-Has sum ps (if same_bytes sum d then some c else o) client h) [
      | inr later ↦ inr (inr later)
      | inl here ↦ elim (Bool-cases (same_bytes sum d)) [
        | inl same ↦ inr (inl (sym (same_bytes-eq sum d same), ground (arith, here, same)))
        | inr other ↦ inl (ground (arith, here, other))
      ]
    ]

-- the digest is there, and those who have it are one client
pub last_client-one :
    (sum : Digest) (ps : List (Digest × String)) (client : String) (o : Option String)
    → All (λ (p : Digest × String). p.0 ≡ sum → p.1 ≡ client) ps
    → (o ≡ some client) ⊎ Has sum client ps
    → last_client sum ps o ≡ some client
last_client-one sum [] client o all (inl h) = h
last_client-one sum [] client o all (inr h) = absurd h
last_client-one sum ((d, c) ∷ ps) client o (this, all) h =
    last_client-one sum ps client (if same_bytes sum d then some c else o) all
      (elim (Bool-cases (same_bytes sum d)) [
        | inl same ↦ inl (rw same (ap some (this (sym (same_bytes-eq sum d same)))))
        | inr other ↦ elim h [
          | inl before ↦ inl (rw other before)
          | inr (inl (hit, _)) ↦ absurd (ground (arith, same_bytes_refl sum, other, hit))
          | inr (inr later) ↦ inr later
        ]
      ])

pub with_digest-All :
    (sum : Digest) (client : String) (d : Option Digest) (c : String)
    (rest : List (Digest × String))
    → (d ≡ some sum → c ≡ client)
    → All (λ (p : Digest × String). p.0 ≡ sum → p.1 ≡ client) rest
    → All (λ (p : Digest × String). p.0 ≡ sum → p.1 ≡ client) (with_digest d c ++ rest)
with_digest-All sum client none c rest this later = later
with_digest-All sum client (some d) c rest this later = (λ same. this (ap some same), later)

pub Has-append :
    (sum : Digest) (client : String) (ps qs : List (Digest × String))
    → Has sum client qs
    → Has sum client (ps ++ qs)
Has-append sum client [] qs h = h
Has-append sum client (p ∷ ps) qs h = inr (Has-append sum client ps qs h)

module _ (P : String × String → Type 0) (k v : String) where
  insert-Any_step :
      (b : Bool) (e : String × String) (m rest : List (String × String))
      → (Any P rest → P (k, v) ⊎ Any P m)
      → Any P (if b then (k, v) ∷ m else e ∷ rest)
      → P (k, v) ⊎ Any P (e ∷ m)
  insert-Any_step true e m rest later (inl this) = inl this
  insert-Any_step true e m rest later (inr old) = inr (inr old)
  insert-Any_step false e m rest later (inl this) = inr (inl this)
  insert-Any_step false e m rest later (inr h) = elim (later h) [
    | inl this ↦ inl this
    | inr old ↦ inr (inr old)
  ]

  pub insert-Any : (m : List (String × String)) → Any P (insert k v m) → P (k, v) ⊎ Any P m
  insert-Any [] (inl h) = inl h
  insert-Any [] (inr h) = absurd h
  insert-Any ((j, w) ∷ m) h = insert-Any_step (j == k) (j, w) m (insert k v m) (insert-Any m) h
