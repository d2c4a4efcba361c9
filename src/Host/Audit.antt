-- ===== src/Host/Audit.antt =====
-- The audit log, host/src/audit.ts (`AuditLog`). The SHA-256 of the canonical JSON, the ed25519
-- signature and its verification are node:crypto's: they are the parameters `hash`, `sign`,
-- `verify`, a text for a digest and a text for a signature. The signer's key id is constant and left
-- out of an entry.
pub mod Chain
mod Examples
use vivim_omega.Common.{
  ℕ, zero, suc, String, Bool, true, false, not, ◌&&◌, ◌||◌, Option, none, some, List, [], ◌∷◌, ◌++◌,
  ◌==◌, if◌then◌else◌, length, get_last?,
}

pub record GrantPayload : Type 0 where
  pub grantor : String  -- `from`
  pub to : String
  pub capability : String
  pub seq : ℕ
  pub prev_hash : String

pub record SignedGrant : Type 0 where
  pub payload : GrantPayload
  pub signature : String

-- the field `entries`, oldest first
abbrev pub AuditLog : Type 0
AuditLog = List SignedGrant

abbrev pub genesis_prev : String
genesis_prev = "0000000000000000000000000000000000000000000000000000000000000000"

module _ (hash : GrantPayload → String) where
  -- the digest of the newest entry
  unfoldable pub head_hash : AuditLog → String
  head_hash entries = elim (get_last? entries) [ none ↦ genesis_prev | some e ↦ hash e.payload ]

  unfoldable pub record_grant :
      (GrantPayload → String) → String → String → String → AuditLog → AuditLog × SignedGrant
  unfolding head_hash
  record_grant sign grantor to capability entries =
      let payload : GrantPayload = record {
        grantor = grantor;
        to = to;
        capability = capability;
        seq = length entries;
        prev_hash = head_hash entries;
      } in
      let grant : SignedGrant = record { payload = payload; signature = sign payload } in
      (entries ++ grant ∷ [], grant)

  -- the loop of `verifyChain`
  unfoldable pub verify_from : (GrantPayload → String → Bool) → String → AuditLog → Bool
  verify_from verify expected [] = true
  verify_from verify expected (e ∷ es) =
      let rest = verify_from verify (hash e.payload) es in
      if not (e.payload.prev_hash == expected) || not (verify e.payload e.signature)
      then false
      else rest

  unfoldable pub verify_chain : (GrantPayload → String → Bool) → AuditLog → Bool
  unfolding verify_from
  verify_chain verify entries = verify_from verify genesis_prev entries
