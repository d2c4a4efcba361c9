-- ===== src/Vault/Canon.antt =====
-- Canonical JSON and digests, plugins/vivim-vault/src/canon.ts. SHA-256 is node:crypto's: it is the
-- parameter `hash`, from a text to its hexadecimal digest. A number is finite, as its
-- JSON.stringify text.
use Prim.Native.Nat.{◌%◌}
use Prim.Native.Char.{code}
use vivim_omega.Law.ConsentId.{units, hex, char_at}
use vivim_omega.Common.Text.{◌⧺◌}
use vivim_omega.Common.{
  ℕ, zero, suc, ◌/◌, String, Bool, true, false, ◌&&◌, ◌||◌, Option, none, some, List, [], ◌∷◌, ltb,
  eqb, if◌then◌else◌, map,
}

mutual
  -- a JavaScript value; a key of an object may hold undefined
  pub data Json : Type 0 where
    undefined null : Json
    boolean : Bool → Json
    number text : String → Json
    array : Elements → Json
    object : Fields → Json

  pub data Elements : Type 0 where
    no_elements : Elements
    element : Json → Elements → Elements

  pub data Fields : Type 0 where
    no_fields : Fields
    field : String → Json → Fields → Fields

-- the order of `sort()`: by UTF-16 units
unfoldable pub units_le : List ℕ → List ℕ → Bool
units_le [] ys = true
units_le (x ∷ xs) [] = false
units_le (x ∷ xs) (y ∷ ys) = let rest = units_le xs ys in ltb x y || (eqb x y && rest)

unfoldable pub insert_key : String → String → List (String × String) → List (String × String)
unfolding units_le units
insert_key k v [] = (k, v) ∷ []
insert_key k v ((j, w) ∷ ps) =
    let rest = insert_key k v ps in
    if units_le (units k) (units j) then (k, v) ∷ (j, w) ∷ ps else (j, w) ∷ rest

unfoldable pub sort_keys : List (String × String) → List (String × String)
unfolding insert_key
sort_keys [] = []
sort_keys ((k, v) ∷ ps) = insert_key k v (sort_keys ps)

-- `xs.join(",")`
unfoldable pub join_comma : List String → String
unfolding ◌⧺◌
join_comma [] = ""
join_comma (x ∷ []) = x
join_comma (x ∷ y ∷ xs) = x ⧺ ("," ⧺ join_comma (y ∷ xs))

-- `JSON.stringify` of a text: the characters between the quotes
unfoldable pub escape : String → String
unfolding ◌⧺◌ hex
escape String.[] = ""
escape (String.◌∷◌ c s) =
    let rest = escape s in
    if eqb (code c) 34
    then "\\\"" ⧺ rest
    else if eqb (code c) 92
    then "\\\\" ⧺ rest
    else if eqb (code c) 8
    then "\\b" ⧺ rest
    else if eqb (code c) 9
    then "\\t" ⧺ rest
    else if eqb (code c) 10
    then "\\n" ⧺ rest
    else if eqb (code c) 12
    then "\\f" ⧺ rest
    else if eqb (code c) 13
    then "\\r" ⧺ rest
    else if ltb (code c) 32
    then "\\u" ⧺ hex 4 (code c) rest
    else String.◌∷◌ c rest

unfoldable pub quote : String → String
unfolding ◌⧺◌ escape
quote s = "\"" ⧺ (escape s ⧺ "\"")

abbrev pair_text : String × String → String
unfolding ◌⧺◌ quote
pair_text (k, v) = quote k ⧺ (":" ⧺ v)

-- what the three cases join: the texts of the elements, and of the defined fields with their keys
unfoldable mutual
  unfolding quote join_comma sort_keys ◌⧺◌

  -- `none` where the source throws
  pub canonical_json : Json → Option String
  canonical_json undefined = none
  canonical_json null = some "null"
  canonical_json (boolean b) = some (if b then "true" else "false")
  canonical_json (number n) = some n
  canonical_json (text s) = some (quote s)
  canonical_json (array xs) = elim (canonical_elements xs) [
    | none ↦ none
    | some ts ↦ some ("[" ⧺ (join_comma ts ⧺ "]"))
  ]
  canonical_json (object fs) = elim (canonical_fields fs) [
    | none ↦ none
    | some ps ↦ some ("{" ⧺ (join_comma (map pair_text (sort_keys ps)) ⧺ "}"))
  ]

  pub canonical_elements : Elements → Option (List String)
  canonical_elements no_elements = some []
  canonical_elements (element x xs) = elim (canonical_json x) [
    | none ↦ none
    | some t ↦ elim (canonical_elements xs) [ none ↦ none | some ts ↦ some (t ∷ ts) ]
  ]

  pub canonical_fields : Fields → Option (List (String × String))
  canonical_fields no_fields = some []
  canonical_fields (field k undefined fs) = canonical_fields fs
  canonical_fields (field k v fs) = elim (canonical_json v) [
    | none ↦ none
    | some t ↦ elim (canonical_fields fs) [ none ↦ none | some ps ↦ some ((k, t) ∷ ps) ]
  ]

-- a number in a template literal
unfoldable pub decimal_from : ℕ → ℕ → String → String
decimal_from zero n rest = rest
decimal_from (suc fuel) n rest =
    let rest' = String.◌∷◌ (char_at (n % 10) "0123456789") rest in
    let more = decimal_from fuel (n / 10) rest' in if ltb n 10 then rest' else more

unfoldable pub decimal : ℕ → String
unfolding decimal_from
decimal n = decimal_from (suc n) n ""

abbrev pub genesis_hash : String
genesis_hash = "0000000000000000000000000000000000000000000000000000000000000000"

-- `s|t`
infixr 66 ◌⦙◌
unfoldable pub ◌⦙◌ : String → String → String
unfolding ◌⧺◌
s ⦙ t = s ⧺ ("|" ⧺ t)

-- the digested text of a changelog row
unfoldable pub entry_text : ℕ → String → String → String → ℕ → String → String → String
unfolding ◌⦙◌ decimal
entry_text seq causation_id ns id rev cid prev_hash =
    decimal seq ⦙ causation_id ⦙ ns ⦙ id ⦙ decimal rev ⦙ cid ⦙ prev_hash

module _ (hash : String → String) where
  unfoldable pub cid_of : Json → Option String
  unfolding canonical_json
  cid_of data_ = elim (canonical_json data_) [ none ↦ none | some t ↦ some (hash t) ]

  unfoldable pub entry_hash : ℕ → String → String → String → ℕ → String → String → String
  unfolding entry_text
  entry_hash seq causation_id ns id rev cid prev_hash =
      hash (entry_text seq causation_id ns id rev cid prev_hash)

unfoldable pub body_text : Json → Option String
unfolding canonical_json
body_text (text s) = some s
body_text value = canonical_json value
