-- ===== src/Host/Tools/Examples.antt =====
-- Generations of host/src/contract.ts at concrete inputs.
use vivim_omega.Common.{◌≡◌, refl, some, List, [], ◌∷◌}
use vivim_omega.Common.Dict
use vivim_omega.Common.Text.{strip_suffix}
use vivim_omega.Host.Tools.{resolve, publish, matches_range, first_segment}
use vivim_omega.Host.Tools.History.{Publication, publish_all}

abbrev publications : List Publication
publications =
    record { name = "echo.ping"; version = "1"; impl = "echo.a" }
    ∷ record { name = "echo.ping"; version = "2"; impl = "echo.b" }
    ∷ []

resolve_series :
    resolve "echo.ping" "1.x" (publish_all publications [])
    ≡ some (record { version = "1"; impl = "echo.a" })
unfolding resolve publish_all publish Dict.get Dict.put matches_range strip_suffix first_segment
resolve_series = refl
