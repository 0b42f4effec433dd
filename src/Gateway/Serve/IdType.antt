-- ===== src/Gateway/Serve/IdType.antt =====
-- internal/gateway/gateway.go: `firstNonSpace`, and the look at the first byte of an id by which
-- `ServeHTTP` tells its type.
use mcpshield.Prelude.{
  ℕ, ◌≤◌, String, Bool, true, false, ◌||◌, ◌&&◌, List, [], ◌∷◌, ◌++◌, some, leb, eqb, if◌then◌else◌,
  ◌≡◌, ap, ◌∙◌, All, arith,
}
use mcpshield.Mcp.{Json, null, bool, num, str, arr, obj, Items, Fields}
use mcpshield.Gateway.Handlers.{Services}
use mcpshield.Gateway.Serve.{is_valid_id}

abbrev pub is_space : ℕ → Bool
is_space c = eqb c b' ' || eqb c b'\t' || eqb c b'\n' || eqb c b'\r'

-- `firstNonSpace`
unfoldable pub first_non_space : List ℕ → ℕ
first_non_space [] = 0
first_non_space (c ∷ cs) = let rest = first_non_space cs in if is_space c then rest else c

-- the `switch` on the first byte: a text, null or a number
unfoldable pub is_id_byte : ℕ → Bool
is_id_byte c =
    if eqb c b'"'
    then true
    else if eqb c b'n'
    then true
    else eqb c b'-' || (leb b'0' c && leb c b'9')

-- The byte that the text of a JSON value starts with, by the grammar of JSON.
pub data StartsWith : Json → ℕ → Type 0 where
  a_null : (c : ℕ) → c ≡ b'n' → StartsWith null c
  a_true : (c : ℕ) → c ≡ b't' → StartsWith (bool true) c
  a_false : (c : ℕ) → c ≡ b'f' → StartsWith (bool false) c
  negative : (n : String) (c : ℕ) → c ≡ b'-' → StartsWith (num n) c
  digit : (n : String) (c : ℕ) → b'0' ≤ c → c ≤ b'9' → StartsWith (num n) c
  a_text : (s : String) (c : ℕ) → c ≡ b'"' → StartsWith (str s) c
  an_array : (a : Items) (c : ℕ) → c ≡ b'[' → StartsWith (arr a) c
  an_object : (f : Fields) (c : ℕ) → c ≡ b'{' → StartsWith (obj f) c

first_non_space-skips :
    (blank : List ℕ) (c : ℕ) (rest : List ℕ)
    → All (λ b. is_space b ≡ true) blank
    → is_space c ≡ false
    → first_non_space (blank ++ c ∷ rest) ≡ c
unfolding first_non_space
first_non_space-skips [] c rest blank visible = ground arith
first_non_space-skips (b ∷ bs) c rest blank visible =
    ground (arith, first_non_space-skips bs c rest blank.1 visible)

module _ {P U A : Type 0} (srv : Services P U A) where
  is_id_byte-is_valid_id :
      (j : Json) (c : ℕ)
      → StartsWith j c
      → (is_space c ≡ false) × (is_id_byte c ≡ is_valid_id srv (some j))
  unfolding is_id_byte
  is_id_byte-is_valid_id _ _ (a_null c e) = (ground arith, ground arith)
  is_id_byte-is_valid_id _ _ (a_true c e) = (ground arith, ground arith)
  is_id_byte-is_valid_id _ _ (a_false c e) = (ground arith, ground arith)
  is_id_byte-is_valid_id _ _ (negative n c e) = (ground arith, ground arith)
  is_id_byte-is_valid_id _ _ (digit n c low high) = (ground arith, ground arith)
  is_id_byte-is_valid_id _ _ (a_text s c e) = (ground arith, ground arith)
  is_id_byte-is_valid_id _ _ (an_array a c e) = (ground arith, ground arith)
  is_id_byte-is_valid_id _ _ (an_object f c e) = (ground arith, ground arith)

  -- The look at the first byte of an id, whatever space stands before it, accepts exactly the texts
  -- of the types that an id may have: a string, a number or null.
  first_non_space-is_valid_id :
      (j : Json) (blank : List ℕ) (c : ℕ) (rest : List ℕ)
      → StartsWith j c
      → All (λ b. is_space b ≡ true) blank
      → is_id_byte (first_non_space (blank ++ c ∷ rest)) ≡ is_valid_id srv (some j)
  first_non_space-is_valid_id j blank c rest starts spaces =
      let (visible, same) = is_id_byte-is_valid_id j c starts in
      ap is_id_byte (first_non_space-skips blank c rest spaces visible) ∙ same
