-- ===== src/Vault/Ops.antt =====
-- The vault's operations, plugins/vivim-vault/src/index.ts, with the checks of validate.ts. A payload
-- is a JavaScript value; `none` stands for a throw, which the shim turns into a DEGRADED reply. The
-- integers are those that JSON.stringify writes without an exponent, below 1e21.
pub mod Names
use Prim.Native.Char.{code}
use vivim_omega.Law.ConsentId.{units}
use vivim_omega.Common.{
  ℕ, zero, suc, ◌+◌, ◌-◌, ◌*◌, String, Bool, true, false, not, ◌&&◌, ◌||◌, Option, none, some, List,
  [], ◌∷◌, ◌==◌, ltb, leb, eqb, if◌then◌else◌, length, ◌>>=◌,
}
use vivim_omega.Vault.Canon.{Json, Elements, Fields}
use vivim_omega.Vault.Canon
use vivim_omega.Vault.Store.{Ref, Vault, ObjectRecord, ObjectGetRow, read_object, read_objects}
use vivim_omega.Vault.Append.{AppendInput, AppendResult, append_object}
use vivim_omega.Vault.Compact.{CompactResult, compact}
use vivim_omega.Vault.Query.{QueryFilter, QueryRow, query_objects}

-- NAME_FORBIDDEN
unfoldable pub is_forbidden : String → Bool
is_forbidden String.[] = false
is_forbidden (String.◌∷◌ c s) = (eqb (code c) 0 || eqb (code c) 124) || is_forbidden s

unfoldable pub require_name : Json → Option String
unfolding is_forbidden units
require_name (Json.text s) =
    if s == ""
    then none
    else if ltb 256 (length (units s))
    then none
    else if is_forbidden s
    then none
    else some s
require_name value = none

unfoldable pub require_object : Json → Option Fields
require_object (Json.object fs) = some fs
require_object payload = none

-- the property of an object, undefined when there is none
unfoldable pub property : String → Fields → Json
property k Fields.no_fields = Json.undefined
property k (Fields.field j v fs) = let rest = property k fs in if j == k then v else rest

-- the decimal digits of a number's text
unfoldable pub digits : ℕ → String → Option ℕ
digits n String.[] = some n
digits n (String.◌∷◌ c s) = elim (leb b'0' (code c) && leb (code c) b'9') [
  | true ↦ digits (10 * n + (code c - b'0')) s
  | false ↦ none
]

unfoldable pub require_int : ℕ → Json → Option ℕ
unfolding digits
require_int min (Json.number t) = elim (digits 0 t) [
  | none ↦ none
  | some n ↦ if ltb n min || t == "" then none else some n
]
require_int min value = none

-- the inner `none` is the source's null
unfoldable pub optional_int : ℕ → Json → Option (Option ℕ)
unfolding require_int
optional_int min Json.undefined = some none
optional_int min Json.null = some none
optional_int min value = elim (require_int min value) [ none ↦ none | some n ↦ some (some n) ]

unfoldable pub require_ref : Json → Option Ref
unfolding require_object require_name property require_int
require_ref r = do
  ref ← require_object r
  ns ← require_name (property "ns" ref)
  id ← require_name (property "id" ref)
  rev ← require_int 1 (property "rev" ref)
  some (record { ns = ns; id = id; rev = rev })

unfoldable pub require_ref_list : Elements → Option (List Ref)
unfolding require_ref
require_ref_list Elements.no_elements = some []
require_ref_list (Elements.element r rs) = do
  ref ← require_ref r
  refs ← require_ref_list rs
  some (ref ∷ refs)

unfoldable pub require_refs : Json → Option (List Ref)
unfolding require_ref_list
require_refs Json.undefined = some []
require_refs Json.null = some []
require_refs (Json.array rs) = require_ref_list rs
require_refs refs = none

-- data is required, and meta an object when it is there
abbrev is_undefined : Json → Bool
is_undefined Json.undefined = true
is_undefined value = false

abbrev is_meta : Json → Bool
is_meta Json.undefined = true
is_meta Json.null = true
is_meta (Json.object fs) = true
is_meta meta = false

-- the checks of vault.append@1; `causation_id` is that of the message
unfoldable pub append_input : Json → Json → Option AppendInput
unfolding require_object require_name property require_refs
append_input payload causation_id = do
  p ← require_object payload
  ns ← require_name (property "ns" p)
  id ← require_name (property "id" p)
  data_ ← if is_undefined (property "data" p) then none else some (property "data" p)
  meta ← if is_meta (property "meta" p) then some (property "meta" p) else none
  refs ← require_refs (property "refs" p)
  causation ← require_name causation_id
  some (record {
    ns = ns;
    id = id;
    data_ = data_;
    meta = meta;
    refs = refs;
    causation_id = causation;
  })

unfoldable pub vault_append : (String → String) → Json → Json → Vault → Option AppendResult × Vault
unfolding append_input append_object
vault_append hash payload causation_id v = elim (append_input payload causation_id) [
  | none ↦ (none, v)
  | some input ↦ append_object hash input v
]

unfoldable pub vault_get : Json → Vault → Option ObjectRecord
unfolding require_object require_name property optional_int read_object
vault_get payload v = do
  p ← require_object payload
  ns ← require_name (property "ns" p)
  id ← require_name (property "id" p)
  rev ← optional_int 1 (property "rev" p)
  read_object v ns id rev

-- the ids, none of them empty
unfoldable pub id_list : Elements → Option (List String)
id_list Elements.no_elements = some []
id_list (Elements.element (Json.text s) xs) = elim (s == "") [
  | true ↦ none
  | false ↦ elim (id_list xs) [ none ↦ none | some ids ↦ some (s ∷ ids) ]
]
id_list (Elements.element x xs) = none

abbrev ids_of : Json → Option (List String)
unfolding id_list
ids_of (Json.array xs) = id_list xs
ids_of value = none

unfoldable pub vault_getmany : Json → Vault → Option (List ObjectGetRow)
unfolding require_object require_name property id_list read_objects
vault_getmany payload v = do
  p ← require_object payload
  ns ← require_name (property "ns" p)
  ids ← ids_of (property "ids" p)
  read_objects v ns ids

abbrev filter_of : Json → Option Fields
unfolding require_object
filter_of Json.undefined = some Fields.no_fields
filter_of Json.null = some Fields.no_fields
filter_of value = require_object value

abbrev prefix_of : Json → Option (Option String)
unfolding require_name
prefix_of Json.undefined = some none
prefix_of Json.null = some none
prefix_of value = elim (require_name value) [ none ↦ none | some s ↦ some (some s) ]

unfoldable pub vault_query : Json → Vault → Option (List QueryRow)
unfolding require_object require_name property optional_int query_objects
vault_query payload v = do
  p ← require_object payload
  ns ← require_name (property "ns" p)
  filter ← filter_of (property "filter" p)
  id_prefix ← prefix_of (property "idPrefix" filter)
  min_rev ← optional_int 0 (property "minRev" filter)
  some (query_objects v ns (record { id_prefix = id_prefix; min_rev = min_rev }))

-- `now` is the clock
unfoldable pub vault_compact : Json → ℕ → Vault → Option CompactResult × Vault
unfolding require_object require_name property require_int compact
vault_compact payload now v =
    let checked : Option (String × ℕ) = do
      p ← require_object payload
      ns ← require_name (property "ns" p)
      keep ← require_int 1 (property "keep" p)
      some (ns, keep)
    in elim checked [
      | none ↦ (none, v)
      | some c ↦ elim (compact c.0 c.1 now v) [
        | none ↦ (none, v)
        | some done ↦ (some done.0, done.1)
      ]
    ]
