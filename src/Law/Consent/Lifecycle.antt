-- ===== src/Law/Consent/Lifecycle.antt =====
-- The life of a consent from grant to revocation, plugins/vivim-law/src/consent.ts.
use vivim_omega.Common.{
  ℕ, ◌+◌, String, ◌≡◌, ◌≢◌, Bool, true, false, ◌&&◌, Option, none, some, List, [], ◌∷◌, eq_refl,
  arith, if◌then◌else◌, Bool-cases, Option-cases, inl, inr, ==_ne,
}
use vivim_omega.Common.Dict
use vivim_omega.Common.Dict.{Dict, get-put}
use vivim_omega.Law.ConsentId.{consent_id_for, is_consent_id, is_consent_id-consent_id_for}
use vivim_omega.Law.Consent.{ConsentRecord, ConsentTable, grant, revoke, admits, has_matching_grant}

-- what happens to the table
pub data ConsentEvent : Type 0 where
  granting : ℕ → String → Option String → Option String → ConsentEvent
  revoking : ℕ → String → ConsentEvent

abbrev granted : ConsentTable → Option (ConsentTable × ConsentRecord) → ConsentTable
granted t none = t
granted t (some (t', rec)) = t'

unfoldable pub consent_step : ConsentTable → ConsentEvent → ConsentTable
consent_step t (granting now id principal scope) = granted t (grant now id principal scope t)
consent_step t (revoking now id) = (revoke now id t).0

unfoldable pub consent_run : ConsentTable → List ConsentEvent → ConsentTable
consent_run t [] = t
consent_run t (e ∷ es) = consent_run (consent_step t e) es

abbrev is_active : Option ConsentRecord → Bool
is_active none = false
is_active (some rec) = rec.active

-- `id` is not granted in the list
abbrev pub NotGranted : String → List ConsentEvent → Type 0
NotGranted id [] = Unit
NotGranted id (granting now other principal scope ∷ es) = (other ≢ id) × NotGranted id es
NotGranted id (revoking now other ∷ es) = NotGranted id es

-- no active record stands under `id`
abbrev pub IsInactive : String → ConsentTable → Type 0
IsInactive id t = is_active (Dict.get id t.grants) ≡ false

revoke-IsInactive_self :
    (now : ℕ) (id : String) (t : ConsentTable) → IsInactive id (revoke now id t).0
unfolding revoke
revoke-IsInactive_self now id t = elim (Option-cases (Dict.get id t.grants)) [
  | inl e ↦ rw (e, revoke) (rw e)
  | inr (rec, e) ↦ elim (Bool-cases rec.active) [
    | inl on ↦ rw (e, revoke) (rw on (simp (get-put, eq_refl)))
    | inr off ↦ rw (e, revoke) (rw off (rw e off))
  ]
]

revoke-IsInactive :
    (now : ℕ) (other id : String) (t : ConsentTable)
    → IsInactive id t
    → IsInactive id (revoke now other t).0
unfolding revoke
revoke-IsInactive now other id t h = elim (Option-cases (Dict.get other t.grants)) [
  | inl e ↦ rw (e, revoke) h
  | inr (rec, e) ↦ elim (Bool-cases rec.active) [
    | inl on ↦ rw (e, revoke) (rw on (simp get-put (ground (arith, h))))
    | inr off ↦ rw (e, revoke) (rw off h)
  ]
]

grant-IsInactive :
    (now : ℕ) (other id : String) (principal scope : Option String) (t : ConsentTable)
    → other ≢ id
    → IsInactive id t
    → IsInactive id (granted t (grant now other principal scope t))
unfolding grant
grant-IsInactive now other id principal scope t ne h = elim (Bool-cases (is_consent_id other)) [
  | inl ok ↦ rw (ok, grant) (simp get-put (rw (==_ne other id ne) h))
  | inr bad ↦ rw (bad, grant) h
]

run-IsInactive :
    (id : String) (t : ConsentTable) (es : List ConsentEvent)
    → NotGranted id es
    → IsInactive id t
    → IsInactive id (consent_run t es)
unfolding consent_run consent_step
run-IsInactive id t [] ng h = h
run-IsInactive id t (granting now other principal scope ∷ es) ng h =
    run-IsInactive id (granted t (grant now other principal scope t)) es ng.1
      (grant-IsInactive now other id principal scope t ng.0 h)
run-IsInactive id t (revoking now other ∷ es) ng h =
    run-IsInactive id (revoke now other t).0 es ng (revoke-IsInactive now other id t h)

no_match :
    (principal op : String) (t : ConsentTable)
    → IsInactive (consent_id_for principal op) t
    → has_matching_grant principal op t ≡ none
unfolding has_matching_grant
no_match principal op t h = ground (arith, h)

-- Once the consent of a principal for an operation is revoked, no grant matches them, whatever else
-- is granted or revoked, until that consent's own id is granted again.
pub revoked_consent_lem :
    (now : ℕ) (principal op : String) (t : ConsentTable) (es : List ConsentEvent)
    → NotGranted (consent_id_for principal op) es
    → has_matching_grant principal op
        (consent_run (revoke now (consent_id_for principal op) t).0 es)
      ≡ none
revoked_consent_lem now principal op t es ng =
    let id = consent_id_for principal op in
    no_match principal op (consent_run (revoke now id t).0 es)
      (run-IsInactive id (revoke now id t).0 es ng (revoke-IsInactive_self now id t))

-- Granting the id that a refusal names never fails, and the grant then matches that principal and
-- operation exactly when its narrowing fields, where given, are that principal and that operation.
pub grant_lem :
    (now : ℕ) (principal op : String) (only scope : Option String) (t : ConsentTable)
    → (t' : ConsentTable) × (rec : ConsentRecord) × (grant now
          (consent_id_for principal op)
          only
          scope
          t
        ≡ some (t', rec))
      × (has_matching_grant principal op t'
          ≡ (if admits only principal && admits scope op then some rec else none))
unfolding grant has_matching_grant
grant_lem now principal op only scope t =
    let id = consent_id_for principal op in
    let rec : ConsentRecord = record {
      consent_id = id;
      principal = only;
      scope = scope;
      granted_at = now;
      generation = t.gen + 1;
      active = true;
      revoked_at = none;
    } in
    (
      record { grants = Dict.put id rec t.grants; gen = t.gen + 1 },
      rec,
      rw (is_consent_id-consent_id_for principal op),
      ground (arith, get-put id id rec t.grants, eq_refl id),
    )
