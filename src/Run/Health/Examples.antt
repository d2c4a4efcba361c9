-- ===== src/Run/Health/Examples.antt =====
-- The health loop of plugins/vivim-run/src/health.ts at concrete inputs.
use vivim_omega.Common.{
  ℕ, ◌+◌, String, ◌≡◌, refl, arith, none, some, List, [], ◌∷◌, length, if◌then◌else◌, eqb, text_ne,
}
use vivim_omega.Common.Dict
use vivim_omega.Run.Health.{CompartmentStats, HealthMonitor, new}
use vivim_omega.Run.Health.Backoff.{observe_run, backoff_bypassed, backoff_lem}

abbrev run : String
run = "vivim.run"

abbrev echo : String
echo = "vivim.echo"

abbrev down : CompartmentStats
down = record { state = "degraded"; crashes = 1 }

abbrev up : CompartmentStats
up = record { state = "active"; crashes = 4 }

abbrev standing : List (ℕ × CompartmentStats)
standing = (0, down) ∷ (500, down) ∷ (1000, down) ∷ []

backoff_bypassed_example :
    (length (observe_run echo standing (new run)).terminated ≡ 0 + 3)
    × (length (observe_run echo standing (new run)).quarantined ≡ 0 + 3)
unfolding Dict.get
backoff_bypassed_example =
    backoff_bypassed echo standing (new run) (text_ne echo run refl) refl
      ((refl, omega arith), ((refl, omega arith), ((refl, omega arith), tt)))

-- quarantined once: two polls of backoff
abbrev muted : HealthMonitor
muted = record (new run) { suppress = (echo, 2) ∷ [] }

backoff_lem_example :
    ((observe_run echo ((0, up) ∷ (500, up) ∷ []) muted).quarantined ≡ [])
    × ((observe_run echo ((0, up) ∷ (500, up) ∷ []) muted).terminated ≡ [])
    × (Dict.get echo (observe_run echo ((0, up) ∷ (500, up) ∷ []) muted).suppress
        ≡ (if eqb 0 0 then none else some 0))
unfolding Dict.get
backoff_lem_example =
    backoff_lem echo (0, up) ((500, up) ∷ []) 0 muted (text_ne echo run refl) refl
      (text_ne "active" "degraded" refl, (text_ne "active" "degraded" refl, tt)) refl
