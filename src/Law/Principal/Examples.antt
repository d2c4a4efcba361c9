-- ===== src/Law/Principal/Examples.antt =====
-- Principal rows of plugins/vivim-law/src/principal.ts at concrete inputs.
use vivim_omega.Common.{String, ◌≡◌, refl, none, some}
use vivim_omega.Common.Text.{strip_prefix}
use vivim_omega.Law.Policy.{length}
use vivim_omega.Law.Principal.{PrincipalRecord, agent, active, new_record}

abbrev name : String
name = "agent:42"

abbrev row : PrincipalRecord
row = record {
  principal = name;
  kind = agent;
  registered_at = 5;
  state = active;
  retired_at = none;
  generation = 1;
}

registered : new_record 5 name ≡ some row
unfolding new_record length strip_prefix
registered = refl
