-- ===== src/Host/Audit/Examples.antt =====
-- The audit log of host/src/audit.ts at concrete inputs. A toy digest, signature and verification
-- stand for those of node:crypto.
use vivim_omega.Common.{String, ◌≡◌, ◌⊎◌, refl, Bool, true, List, [], ◌∷◌, ◌==◌, eq_refl}
use vivim_omega.Common.Text.{◌⧺◌}
use vivim_omega.Host.Audit.{GrantPayload, AuditLog, verify_chain}
use vivim_omega.Host.Audit.Chain.{
  Request, record_all, payloads, verify-record_all, Collision, head_commits,
}

abbrev hash : GrantPayload → String
hash p = p.grantor ⧺ (">" ⧺ (p.to ⧺ (":" ⧺ (p.capability ⧺ p.prev_hash))))

abbrev sign : GrantPayload → String
sign p = "signed " ⧺ hash p

abbrev verify : GrantPayload → String → Bool
verify p signature = signature == ("signed " ⧺ hash p)

verify-sign : (p : GrantPayload) → verify p (sign p) ≡ true
verify-sign p = eq_refl (sign p)

abbrev requests : List Request
requests = ("core", "vivim.run", "task.run") ∷ ("core", "vivim.vault", "vault.get") ∷ []

verify-record_all_example : verify_chain hash verify (record_all hash sign requests []) ≡ true
unfolding verify_chain
verify-record_all_example = verify-record_all hash sign verify verify-sign requests [] refl

abbrev log : AuditLog
log = record_all hash sign requests []

head_commits_example : (payloads log ≡ payloads log) ⊎ Collision hash
head_commits_example =
    head_commits hash verify log log refl verify-record_all_example verify-record_all_example refl
