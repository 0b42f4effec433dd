-- ===== src/Prelude/Maps.antt =====
-- Go maps with string keys as association lists, and sets of strings as lists. A read of an
-- entry takes the first pair with the key; a loop over a map sees the pairs in the list's order,
-- which Go leaves open, so a fact about such a loop is stated for every list.
use Prim.Native.Nat.{suc, ◌+◌, ◌≤◌}
use Prim.Native.String.{String}
use mathlib.Core.Path.{◌≡◌, refl, ap}
use mathlib.Core.Logic.{◌≢◌, inl, inr}
use mathlib.Core.Bool.{Bool, false, ◌||◌}
use mathlib.Core.Option.{Option, none, some}
use mathlib.Core.List.{List, [], ◌∷◌}
use native.Mathlib.Omega.{arith}
use text.Mathlib.Text.{◌==◌}
use text.Mathlib.TextEquality.{eq_iff}
use mcpshield.Prelude.Tests.{if◌then◌else◌, Bool-cases}
use mcpshield.Prelude.Lists.{length}

-- `_, ok := set[s]`
abbrev pub contains : List String → String → Bool
contains [] s = false
contains (t ∷ ts) s = t == s || contains ts s

-- `set[s] = struct{}{}`
abbrev pub set_add : List String → String → List String
set_add ts s = if contains ts s then ts else s ∷ ts

-- the loop that adds each of a list
abbrev pub set_add_all : List String → List String → List String
set_add_all ts [] = ts
set_add_all ts (s ∷ ss) = set_add_all (set_add ts s) ss

pub contains-set_add :
    (ts : List String) (s x : String) → contains (set_add ts s) x ≡ (s == x || contains ts x)
contains-set_add ts s x = ground (arith, eq_iff s x)

pub contains-set_add_all :
    (ts ss : List String) (x : String)
    → contains (set_add_all ts ss) x ≡ (contains ss x || contains ts x)
contains-set_add_all ts [] x = refl
contains-set_add_all ts (s ∷ ss) x =
    ground (arith, contains-set_add_all (set_add ts s) ss x, contains-set_add ts s x)

module _ {ℓ} {V : Type ℓ} where
  -- `v, ok := m[k]`
  abbrev pub lookup : String → List (String × V) → Option V
  lookup key [] = none
  lookup key ((k, v) ∷ rest) = if k == key then some v else lookup key rest

  -- `m[k] = v`
  abbrev pub insert : String → V → List (String × V) → List (String × V)
  insert key v [] = (key, v) ∷ []
  insert key v ((k, old) ∷ rest) =
      if k == key then (key, v) ∷ rest else (k, old) ∷ insert key v rest

  -- `delete(m, k)`
  abbrev pub delete : String → List (String × V) → List (String × V)
  delete k [] = []
  delete k ((j, v) ∷ m) = if j == k then delete k m else (j, v) ∷ delete k m

  -- No key occurs twice, as in a Go map.
  abbrev pub IsMap : List (String × V) → Type ℓ
  IsMap [] = Unit
  IsMap ((k, v) ∷ m) = (lookup k m ≡ none) × IsMap m

  pub lookup-insert :
      (target asked : String) (v : V) (m : List (String × V))
      → lookup asked (insert target v m) ≡ (if target == asked then some v else lookup asked m)
  lookup-insert target asked v [] = refl
  lookup-insert target asked v ((k, old) ∷ rest) =
      let tail = lookup-insert target asked v rest in
      ground (arith, eq_iff target asked, eq_iff k asked, eq_iff k target, tail)

  pub lookup-delete :
      (k j : String) (m : List (String × V))
      → lookup j (delete k m) ≡ (if k == j then none else lookup j m)
  lookup-delete k j [] = ground arith
  lookup-delete k j ((i, w) ∷ m) =
      ground (arith, eq_iff k j, eq_iff i k, eq_iff i j, lookup-delete k j m)

  pub insert-IsMap : (k : String) (v : V) (m : List (String × V)) → IsMap m → IsMap (insert k v m)
  insert-IsMap k v [] h = (refl, tt)
  insert-IsMap k v ((j, w) ∷ m) h =
      ground (arith, eq_iff j k, lookup-insert k j v m, insert-IsMap k v m h.1, eq_iff k j)

  pub delete-IsMap : (k : String) (m : List (String × V)) → IsMap m → IsMap (delete k m)
  delete-IsMap k [] h = tt
  delete-IsMap k ((j, w) ∷ m) h =
      ground (arith, lookup-delete k j m, delete-IsMap k m h.1, eq_iff j k, eq_iff k j)

  pub length-insert :
      (k : String) (v : V) (m : List (String × V)) → length (insert k v m) ≤ length m + 1
  length-insert k v [] = omega arith
  length-insert k v ((j, w) ∷ m) = ground (arith, length-insert k v m)

  -- to write an entry that is there adds none
  pub length-insert_old :
      (k : String) (v : V) (m : List (String × V))
      → lookup k m ≢ none
      → length (insert k v m) ≡ length m
  length-insert_old k v [] h = absurd (h refl)
  length-insert_old k v ((j, w) ∷ m) h = elim (Bool-cases (j == k)) [
    | inl same ↦ rw same
    | inr other ↦ rw other (ap suc (length-insert_old k v m (λ e. h (rw other e))))
  ]

  pub delete_absent : (k : String) (m : List (String × V)) → lookup k m ≡ none → delete k m ≡ m
  delete_absent k [] h = refl
  delete_absent k ((j, w) ∷ m) h = ground (arith, delete_absent k m)

  pub length-delete :
      (k : String) (v : V) (m : List (String × V))
      → IsMap m
      → lookup k m ≡ some v
      → length (delete k m) + 1 ≡ length m
  length-delete k v [] d h = cc
  length-delete k v ((j, w) ∷ m) (n, d) h = elim (Bool-cases (j == k)) [
    | inl same ↦
        let gone : lookup k m ≡ none = rw (← (eq_iff j k).0 same) n in
        ground (arith, delete_absent k m gone)
    | inr other ↦ ground (arith, length-delete k v m d)
  ]

  pub length-delete-le : (k : String) (m : List (String × V)) → length (delete k m) ≤ length m
  length-delete-le k [] = omega arith
  length-delete-le k ((j, w) ∷ m) = ground (arith, length-delete-le k m)
