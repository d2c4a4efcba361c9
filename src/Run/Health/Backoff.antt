-- ===== src/Run/Health/Backoff.antt =====
-- The backoff after a quarantine, plugins/vivim-run/src/health.ts.
use vivim_omega.Common.{
  ℕ, zero, suc, ◌+◌, ◌-◌, ◌≤◌, String, ◌≡◌, ◌≢◌, refl, true, false, none, some, List, [], ◌∷◌, ◌∙◌,
  ap, eq_iff, eq_refl, ==_ne, arith, leb, eqb, if◌then◌else◌, length, length-append, All,
}
use vivim_omega.Common.Dict
use vivim_omega.Common.Dict.{Dict, get-put, get-delete}
use vivim_omega.Run.Health.{
  CompartmentStats, HealthMonitor, record_event, quarantine, count_down, is_seen, is_standing,
  observe, crash_increment,
}

-- the observations of one compartment in consecutive polls, with their times
unfoldable pub observe_run : String → List (ℕ × CompartmentStats) → HealthMonitor → HealthMonitor
observe_run p [] h = h
observe_run p ((now, s) ∷ rest) h = observe_run p rest (observe now p s h)

-- the compartment's windows are empty, as they are at first and after a quarantine
abbrev pub IsUnseen : String → HealthMonitor → Type 0
IsUnseen p h = is_seen p h ≡ false

abbrev pub IsStanding : ℕ × CompartmentStats → Type 0
IsStanding (now, s) = (s.state ≡ "degraded") × (1 ≤ s.crashes)

quarantine-unseen :
    (now : ℕ) (p : String) (h : HealthMonitor) → is_seen p (quarantine now p h) ≡ false
unfolding quarantine
quarantine-unseen now p h = simp (get-delete, eq_refl)

observe-standing :
    (now : ℕ) (p : String) (s : CompartmentStats) (h : HealthMonitor)
    → p ≢ h.self_id
    → IsUnseen p h
    → IsStanding (now, s)
    → (is_seen p (observe now p s h) ≡ false)
      × ((observe now p s h).self_id ≡ h.self_id)
      × (length (observe now p s h).terminated ≡ length h.terminated + 1)
      × (length (observe now p s h).quarantined ≡ length h.quarantined + 1)
unfolding observe
observe-standing now p s h ne unseen standing =
    let first : is_standing p s h ≡ true =
      ground (arith, unseen, (eq_iff s.state "degraded").1 standing.0, standing.1) in
    rw (==_ne p h.self_id ne, observe)
      (rw first (
        quarantine-unseen now p (record_event now crash_increment (some p) h),
        refl,
        length-append h.terminated (p ∷ []),
        length-append h.quarantined (record { plugin_id = p; at = now } ∷ []),
      ))

-- A compartment that stays degraded with a crash on record is quarantined, and host op
-- compartmentTerminate is called for it, again at every single poll: the backoff never mutes it.
pub backoff_bypassed :
    (p : String) (ss : List (ℕ × CompartmentStats)) (h : HealthMonitor)
    → p ≢ h.self_id
    → IsUnseen p h
    → All IsStanding ss
    → (length (observe_run p ss h).terminated ≡ length h.terminated + length ss)
      × (length (observe_run p ss h).quarantined ≡ length h.quarantined + length ss)
unfolding observe_run
backoff_bypassed p [] h ne unseen all = (omega arith, omega arith)
backoff_bypassed p ((now, s) ∷ ss) h ne unseen all =
    let (u, same, t, q) = observe-standing now p s h ne unseen all.0 in
    let rest = backoff_bypassed p ss (observe now p s h) (rw same ne) u all.1 in
    (omega (arith, t, rest.0), omega (arith, q, rest.1))

abbrev pub IsNotDegraded : ℕ × CompartmentStats → Type 0
IsNotDegraded (now, s) = s.state ≢ "degraded"

count_down_lem :
    (now n : ℕ) (p : String) (h : HealthMonitor)
    → IsUnseen p h
    → (is_seen p (count_down now p (suc n) h) ≡ false)
      × ((count_down now p (suc n) h).self_id ≡ h.self_id)
      × ((count_down now p (suc n) h).terminated ≡ h.terminated)
      × ((count_down now p (suc n) h).quarantined ≡ h.quarantined)
      × (Dict.get p (count_down now p (suc n) h).suppress ≡ (if eqb n 0 then none else some n))
unfolding count_down
count_down_lem now zero p h unseen =
    (simp (get-delete, eq_refl), refl, refl, refl, simp (get-delete, eq_refl))
count_down_lem now (suc n) p h unseen =
    let more : leb (suc (suc n)) 1 ≡ false = ground arith in
    rw (more, count_down)
      (
        unseen,
        refl,
        refl,
        refl,
        ground (arith, eq_refl p, get-put p p (suc (suc n) - 1) h.suppress),
      )

observe-muted :
    (now n : ℕ) (p : String) (s : CompartmentStats) (h : HealthMonitor)
    → p ≢ h.self_id
    → IsUnseen p h
    → s.state ≢ "degraded"
    → Dict.get p h.suppress ≡ some (suc n)
    → (is_seen p (observe now p s h) ≡ false)
      × ((observe now p s h).self_id ≡ h.self_id)
      × ((observe now p s h).terminated ≡ h.terminated)
      × ((observe now p s h).quarantined ≡ h.quarantined)
      × (Dict.get p (observe now p s h).suppress ≡ (if eqb n 0 then none else some n))
unfolding observe
observe-muted now n p s h ne unseen sound muted =
    let other : is_standing p s h ≡ false =
      ground (arith, unseen, ==_ne s.state "degraded" sound) in
    rw (==_ne p h.self_id ne, observe)
      (rw other (rw (muted, observe) (count_down_lem now n p h unseen)))

-- A compartment that was quarantined and has left the state degraded is neither quarantined nor
-- terminated during the polls of its backoff, whatever its crash count does, and is watched again
-- exactly when they are over.
pub backoff_lem :
    (p : String) (first : ℕ × CompartmentStats) (ss : List (ℕ × CompartmentStats)) (more : ℕ)
    (h : HealthMonitor)
    → p ≢ h.self_id
    → IsUnseen p h
    → All IsNotDegraded (first ∷ ss)
    → Dict.get p h.suppress ≡ some (length (first ∷ ss) + more)
    → ((observe_run p (first ∷ ss) h).quarantined ≡ h.quarantined)
      × ((observe_run p (first ∷ ss) h).terminated ≡ h.terminated)
      × (Dict.get p (observe_run p (first ∷ ss) h).suppress
          ≡ (if eqb more 0 then none else some more))
unfolding observe_run
backoff_lem p (now, s) [] more h ne unseen all muted =
    let m : Dict.get p h.suppress ≡ some (suc more) = muted ∙ ap some (omega arith) in
    let (u, same, t, q, left) = observe-muted now more p s h ne unseen all.0 m in (q, t, left)
backoff_lem p (now, s) (next ∷ ss) more h ne unseen all muted =
    let m : Dict.get p h.suppress ≡ some (suc (length (next ∷ ss) + more)) =
      muted ∙ ap some (omega arith) in
    let (u, same, t, q, left) =
      observe-muted now (length (next ∷ ss) + more) p s h ne unseen all.0 m in
    let left' : Dict.get p (observe now p s h).suppress ≡ some (length (next ∷ ss) + more) =
      ground (arith, left) in
    let rest = backoff_lem p next ss more (observe now p s h) (rw same ne) u all.1 left' in
    (rest.0 ∙ q, rest.1 ∙ t, rest.2)
