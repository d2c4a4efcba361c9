-- ===== src/Vault/Examples.antt =====
-- The vault of plugins/vivim-vault/src at concrete inputs. A toy digest stands for SHA-256: three
-- cids, one for the text "1", one for "2" and one for all other texts.
use vivim_omega.Common.Dict
use vivim_omega.Common.{
  ℕ, ◌+◌, String, true, Option, none, some, List, [], ◌∷◌, ◌≡◌, ◌⊎◌, ◌↔◌, inl, inr, ◌≢◌, text_ne,
  refl, sym, ◌∙◌, ap, length, All, arith, ◌==◌, Bool-cases, if◌then◌else◌, false,
}
use vivim_omega.Vault.Json.{json_value, json_elements, json_fields, is_plain}
use vivim_omega.Vault.Reads.{as_appended, append_object-read_object}
use vivim_omega.Vault.Canon.{Elements, Json, Fields, canonical_json, entry_text, decimal}
use vivim_omega.Vault.Canon
use vivim_omega.Vault.Store.{Ref, ObjectRow, Vault, is_cid, find_row, read_object, new_vault}
use vivim_omega.Vault.Append.{AppendInput, AppendResult, append_object, chain_head}
use vivim_omega.Vault.Compact.{CompactResult, compact}
use vivim_omega.Vault.Compact.Moved.{IsWf, Kept}
use vivim_omega.Vault.Compact.Kept.{compact-Kept}
use vivim_omega.Vault.Compact.Protected.{compact-ref_key}
use vivim_omega.Vault.Verify.{verify}
use vivim_omega.Vault.Verify.Intact.{IsIntact, verify-IsIntact}
use vivim_omega.Vault.Spec.{Command, append, run, spec_run, spec_read, empty_spec}
use vivim_omega.Vault.Refined.{IsRefined}
use vivim_omega.Vault.Refinement.{IsUsing, run-IsRefined, empty-IsRefined, read_object-run}
use vivim_omega.Vault.Sound.{verify-run}
use vivim_omega.Vault.Copy.{roundtrip}
use vivim_omega.Vault.Copy.Same.{roundtrip-verify, read_object-roundtrip}
use vivim_omega.Vault.Query.{QueryFilter, query_objects}
use vivim_omega.Vault.Query.Newest.{IsNewest, query_objects-IsNewest}
use vivim_omega.Vault.Ops.{append_input}
use vivim_omega.Vault.Ops.Names.{entry_text-append_input}

abbrev cid_one : String
cid_one = "aaaaaaaaaaaaaaaaaaaaaaaaaaaaaaaaaaaaaaaaaaaaaaaaaaaaaaaaaaaaaaaa"

abbrev cid_two : String
cid_two = "bbbbbbbbbbbbbbbbbbbbbbbbbbbbbbbbbbbbbbbbbbbbbbbbbbbbbbbbbbbbbbbb"

abbrev cid_else : String
cid_else = "cccccccccccccccccccccccccccccccccccccccccccccccccccccccccccccccc"

unfoldable hash : String → String
hash t = if t == "1" then cid_one else if t == "2" then cid_two else cid_else

IsUsed : String → Type 0
IsUsed t = (t ≡ "1") ⊎ (t ≡ "2")

hex : (t : String) → is_cid (hash t) ≡ true
unfolding is_cid hash
hex t = elim (Bool-cases (t == "1")) [
  | inl e ↦ rw e refl
  | inr e ↦ elim (Bool-cases (t == "2")) [ inl f ↦ rw e (rw f refl) | inr f ↦ rw e (rw f refl) ]
]

cids_differ : cid_one ≢ cid_two
cids_differ = text_ne cid_one cid_two refl

no_collision : (t u : String) → IsUsed t → IsUsed u → hash t ≡ hash u → t ≡ u
unfolding IsUsed hash
no_collision t u (inl e) (inl f) h = e ∙ sym f
no_collision t u (inl e) (inr f) h = absurd (cids_differ (ap hash (sym e) ∙ h ∙ ap hash f))
no_collision t u (inr e) (inl f) h = absurd (cids_differ (ap hash (sym f) ∙ sym h ∙ ap hash e))
no_collision t u (inr e) (inr f) h = e ∙ sym f

abbrev input : String → List Ref → AppendInput
input n refs = record {
  ns = "n";
  id = "x";
  data_ = Json.number n;
  meta = Json.undefined;
  refs = refs;
  causation_id = "me";
}

abbrev first_ref : Ref
first_ref = record { ns = "n"; id = "x"; rev = 1 }

abbrev commands : List Command
commands = append (input "1" []) ∷ append (input "2" (first_ref ∷ [])) ∷ append (input "1" []) ∷ []

using : All (IsUsing hash IsUsed hex no_collision) commands
unfolding canonical_json IsUsed
using = (
  (λ t e. inl (ground (arith, e))),
  ((λ t e. inr (ground (arith, e))), ((λ t e. inl (ground (arith, e))), tt)),
)

abbrev stocked : Vault
stocked = run hash commands new_vault

refined : IsRefined hash IsUsed stocked (spec_run commands empty_spec)
refined =
    run-IsRefined hash IsUsed hex no_collision commands new_vault empty_spec
      (empty-IsRefined hash IsUsed hex no_collision) using

read_object-run_example :
    read_object (run hash commands new_vault) "n" "x" (some 2)
    ≡ spec_read hash (spec_run commands empty_spec) "n" "x" (some 2)
read_object-run_example =
    read_object-run hash IsUsed hex no_collision commands using "n" "x" (some 2)

-- the second version, read back
second :
    read_object stocked "n" "x" (some 2)
    ≡ some (record { rev = 2; cid = cid_two; data_ = "2"; meta = Json.null; refs = first_ref ∷ [] })
unfolding run hash read_object json_value
second = refl

-- a key that is undefined is dropped, an element that is undefined reads as null
abbrev noted : AppendInput
noted = record (input "2" (first_ref ∷ [])) {
  meta = Json.object (
      Fields.field "a" Json.undefined (
        Fields.field "b" (Json.array (Elements.element Json.undefined Elements.no_elements))
          Fields.no_fields));
}

read_back :
    json_value noted.meta
    ≡ Json.object (
        Fields.field "b"
          (Json.array (Elements.element Json.null Elements.no_elements))
          Fields.no_fields)
unfolding json_value json_elements json_fields
read_back = refl

append_object-read_object_example :
    (result : AppendResult) × (w : Vault) × (append_object hash noted (run hash commands new_vault)
      ≡ (some result, w))
    × (result.rev ≡ length (spec_run commands empty_spec "n" "x") + 1)
    × (read_object w "n" "x" (some result.rev) ≡ some (as_appended hash result.rev "2" noted))
    × (read_object w "n" "x" none ≡ some (as_appended hash result.rev "2" noted))
    × ((is_plain noted.meta ≡ false) ⊎ (json_value noted.meta ≡ noted.meta))
unfolding canonical_json IsUsed
append_object-read_object_example =
    append_object-read_object hash IsUsed hex no_collision commands using noted "2" refl (inr refl)

verify-run_example : verify hash (run hash commands new_vault) ≡ record {
  ok = true;
  head_hash = chain_head (run hash commands new_vault).changelog;
  entries = length (run hash commands new_vault).changelog;
  corrupt_at = none;
  detail = none;
}
verify-run_example = verify-run hash IsUsed hex no_collision commands using

verify-IsIntact_example : (verify hash stocked).ok ≡ true ↔ IsIntact hash stocked
verify-IsIntact_example = verify-IsIntact hash stocked

compact-Kept_example :
    (done : CompactResult × Vault) × (compact "n" 2 7 stocked ≡ some done)
    × IsWf done.1.objects done.1.cold_objects
    × Kept stocked.objects stocked.cold_objects done.1.objects done.1.cold_objects
    × (done.1.changelog ≡ stocked.changelog)
    × (done.1.cas ≡ stocked.cas)
compact-Kept_example = compact-Kept "n" 2 7 stocked refl (omega arith) refined.wf

abbrev compacted : CompactResult × Vault
unfolding run hash compact
compacted = elim (compact "n" 2 7 stocked) [
  | none ↦ (record { moved = 0; kept = 0; protected = 0 }, stocked)
  | some done ↦ done
]

-- the oldest revision stays: a hot one names it
kept_it : compacted.0 ≡ record { moved = 0; kept = 3; protected = 1 }
unfolding run hash compact
kept_it = refl

abbrev row_at : ℕ → String → List Ref → ObjectRow
row_at rev cid refs = record {
  ns = "n";
  id = "x";
  rev = rev;
  cid = cid;
  meta = record { meta = Json.null; refs = refs };
}

compact-ref_key_example :
    find_row "n" "x" 1 compacted.1.objects ≡ find_row "n" "x" 1 stocked.objects
unfolding run hash compact json_value
compact-ref_key_example =
    compact-ref_key "n" 2 7 stocked compacted (row_at 1 cid_one [] ∷ []) (row_at 3 cid_one [] ∷ [])
      (row_at 2 cid_two (first_ref ∷ [])) [] [] first_ref refl refl refl

abbrev parse_body : String → Option String
parse_body t = some t

names : Dict.IsDistinct stocked.cas
unfolding run hash
names = (refl, (refl, tt))

roundtrip-verify_example :
    (verify hash (roundtrip hash parse_body stocked).1 ≡ verify hash stocked)
    × ((roundtrip hash parse_body stocked).0.ok ≡ (verify hash stocked).ok)
    × ((roundtrip hash parse_body stocked).0.head_hash ≡ (verify hash stocked).head_hash)
    × ((roundtrip hash parse_body stocked).0.entries ≡ (verify hash stocked).entries)
roundtrip-verify_example = roundtrip-verify parse_body stocked names hash

read_object-roundtrip_example :
    read_object (roundtrip hash parse_body stocked).1 "n" "x" none
    ≡ read_object stocked "n" "x" none
read_object-roundtrip_example = read_object-roundtrip parse_body stocked names hash "n" "x" none

abbrev any_row : QueryFilter
any_row = record { id_prefix = some "x"; min_rev = none }

query_objects-IsNewest_example :
    All
      (IsNewest hash (spec_run commands empty_spec) "n" any_row)
      (query_objects (run hash commands new_vault) "n" any_row)
query_objects-IsNewest_example =
    query_objects-IsNewest hash IsUsed hex no_collision commands using "n" any_row

-- LIKE does not tell the case of a letter apart
case_is_ignored :
    query_objects stocked "n" (record { id_prefix = some "X"; min_rev = none })
    ≡ record { id = "x"; rev = 3; cid = cid_one } ∷ []
unfolding run hash query_objects
case_is_ignored = refl

abbrev payload : Json
payload = Json.object (
    Fields.field "ns" (Json.text "n")
      (Fields.field "id" (Json.text "x") (Fields.field "data" (Json.number "1") Fields.no_fields)))

entry_text-append_input_example :
    (first_ref.rev ≡ first_ref.rev)
    × ((input "1" []).causation_id ≡ "me")
    × ((input "1" []).ns ≡ "n")
    × ((input "1" []).id ≡ "x")
    × (first_ref.rev ≡ first_ref.rev)
    × (cid_one ≡ cid_one)
    × (Canon.genesis_hash ≡ Canon.genesis_hash)
unfolding append_input is_cid
entry_text-append_input_example =
    entry_text-append_input payload (Json.text "me") payload (Json.text "me") (input "1" [])
      (input "1" []) refl refl 1 1 1 1 cid_one cid_one Canon.genesis_hash Canon.genesis_hash refl
      refl refl
