-- ===== src/Law/Consent/Examples.antt =====
-- Consents of plugins/vivim-law/src/consent.ts at concrete inputs.
use vivim_omega.Common.{String, ◌≡◌, true, none, some, List, [], ◌∷◌}
use vivim_omega.Law.ConsentId.{consent_id_for}
use vivim_omega.Law.Consent.{ConsentTable, revoke, has_matching_grant}
use vivim_omega.Law.Consent.Lifecycle.{ConsentEvent, revoking, consent_run, revoked_consent_lem}

abbrev run : String
run = "vivim.run"

abbrev op : String
op = "vault.put@1"

abbrev events : List ConsentEvent
events = revoking 8 "consent:other" ∷ []

-- the consent is granted, then revoked, then another one is
abbrev granted_table : ConsentTable
granted_table = record {
  grants =
      (
        consent_id_for run op,
        record {
          consent_id = consent_id_for run op;
          principal = some run;
          scope = none;
          granted_at = 3;
          generation = 1;
          active = true;
          revoked_at = none;
        },
      )
      ∷ [];
  gen = 1;
}

revoked_consent_lem_example :
    has_matching_grant run op
      (consent_run (revoke 7 (consent_id_for run op) granted_table).0 events)
    ≡ none
revoked_consent_lem_example = revoked_consent_lem 7 run op granted_table events tt
