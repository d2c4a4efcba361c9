-- ===== src/Vault/Json.antt =====
-- JSON.parse after JSON.stringify, as the meta column of plugins/vivim-vault/src/sql.ts goes through
-- them (`envelopeOf`, `parseEnvelope`): keys that hold undefined are dropped, elements that are
-- undefined read as null. The keys of an object are different.
use vivim_omega.Common.{Bool, true, false, ◌&&◌, ◌≡◌, refl, ap, arith}
use vivim_omega.Vault.Canon.{Json, Elements, Fields}

unfoldable mutual
  pub json_value : Json → Json
  json_value Json.undefined = Json.null
  json_value Json.null = Json.null
  json_value (Json.boolean b) = Json.boolean b
  json_value (Json.number n) = Json.number n
  json_value (Json.text s) = Json.text s
  json_value (Json.array xs) = Json.array (json_elements xs)
  json_value (Json.object fs) = Json.object (json_fields fs)

  pub json_elements : Elements → Elements
  json_elements Elements.no_elements = Elements.no_elements
  json_elements (Elements.element x xs) = Elements.element (json_value x) (json_elements xs)

  pub json_fields : Fields → Fields
  json_fields Fields.no_fields = Fields.no_fields
  json_fields (Fields.field k Json.undefined fs) = json_fields fs
  json_fields (Fields.field k v fs) = Fields.field k (json_value v) (json_fields fs)

-- nothing in the value is undefined
unfoldable mutual
  pub is_plain : Json → Bool
  is_plain Json.undefined = false
  is_plain Json.null = true
  is_plain (Json.boolean b) = true
  is_plain (Json.number n) = true
  is_plain (Json.text s) = true
  is_plain (Json.array xs) = has_plain_elements xs
  is_plain (Json.object fs) = has_plain_fields fs

  pub has_plain_elements : Elements → Bool
  has_plain_elements Elements.no_elements = true
  has_plain_elements (Elements.element x xs) = is_plain x && has_plain_elements xs

  pub has_plain_fields : Fields → Bool
  has_plain_fields Fields.no_fields = true
  has_plain_fields (Fields.field k v fs) = is_plain v && has_plain_fields fs

mutual
  unfolding json_value json_elements json_fields is_plain has_plain_elements has_plain_fields

  pub json_value_plain : (v : Json) → is_plain v ≡ true → json_value v ≡ v
  json_value_plain Json.undefined h = absurd (ground (arith, h))
  json_value_plain Json.null h = refl
  json_value_plain (Json.boolean b) h = refl
  json_value_plain (Json.number n) h = refl
  json_value_plain (Json.text s) h = refl
  json_value_plain (Json.array xs) h = ap Json.array (json_elements_plain xs h)
  json_value_plain (Json.object fs) h = ap Json.object (json_fields_plain fs h)

  json_elements_plain : (xs : Elements) → has_plain_elements xs ≡ true → json_elements xs ≡ xs
  json_elements_plain Elements.no_elements h = refl
  json_elements_plain (Elements.element x xs) h =
      cc (json_value_plain x (ground (arith, h)), json_elements_plain xs (ground (arith, h)))

  json_fields_plain : (fs : Fields) → has_plain_fields fs ≡ true → json_fields fs ≡ fs
  json_fields_plain Fields.no_fields h = refl
  json_fields_plain (Fields.field k Json.undefined fs) h = absurd (ground (arith, h))
  json_fields_plain (Fields.field k v fs) h =
      cc (json_value_plain v (ground (arith, h)), json_fields_plain fs (ground (arith, h)))
