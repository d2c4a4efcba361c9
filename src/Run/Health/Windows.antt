-- ===== src/Run/Health/Windows.antt =====
-- The event ring and the windows of the health loop, plugins/vivim-run/src/health.ts.
use vivim_omega.Common.{
  ℕ, zero, suc, ◌+◌, ◌-◌, ◌≤◌, String, ◌≡◌, refl, ◌&&◌, ◌||◌, Option, none, some, List, [], ◌∷◌,
  ◌++◌, ◌==◌, arith, ltb, leb, or_else, length, get_last?, Bool-cases, Option-cases, inl, inr,
}
use vivim_omega.Common.Dict
use vivim_omega.Common.Dict.{Dict, get-put, get-delete}
use vivim_omega.Run.Health.{
  CompartmentStats, HealthEventType, HealthMonitor, new, drop, push_bounded, record_event,
  reset_windows, is_standing, quarantine, count_down, judge, watch, observe, observe_all, poll,
  terminate_replied, crash_increment, rearm, stats_error, terminated_event,
}

abbrev window {ℓ} : {A : Type ℓ} → String → Dict (List A) → List A
window p m = or_else (Dict.get p m) []

pub record IsBounded (h : HealthMonitor) : Type 0 where
  pub ring : length h.events ≤ 200
  pub crash_window : (p : String) → length (or_else (Dict.get p h.crash_windows) []) ≤ 3
  pub state_window : (p : String) → length (or_else (Dict.get p h.state_windows) []) ≤ 3

length-drop {ℓ} : {A : Type ℓ} (n : ℕ) (xs : List A) → length (drop n xs) ≡ length xs - n
unfolding drop
length-drop zero xs = omega arith
length-drop (suc n) [] = omega arith
length-drop (suc n) (x ∷ xs) = omega (arith, length-drop n xs)

length-push_bounded {ℓ} :
    {A : Type ℓ} (max : ℕ) (x : A) (xs : List A) → length (push_bounded max x xs) ≤ max
unfolding push_bounded
length-push_bounded max x xs =
    let ys = xs ++ x ∷ [] in omega (arith, length-drop (length ys - max) ys)

window-put {ℓ} :
    {A : Type ℓ} (p q : String) (xs : List A) (m : Dict (List A))
    → length xs ≤ 3
    → length (window q m) ≤ 3
    → length (window q (Dict.put p xs m)) ≤ 3
window-put p q xs m h k = ground (arith, h, k, get-put p q xs m)

window-delete {ℓ} :
    {A : Type ℓ} (p q : String) (m : Dict (List A))
    → length (window q m) ≤ 3
    → length (window q (Dict.delete p m)) ≤ 3
window-delete p q m k = ground (arith, k, get-delete p q m)

record_event-IsBounded :
    (now : ℕ) (kind : HealthEventType) (p : Option String) (h : HealthMonitor)
    → IsBounded h
    → IsBounded (record_event now kind p h)
unfolding record_event
record_event-IsBounded now kind p h b = record {
  ring = length-push_bounded 200 _ h.events;
  crash_window = b.crash_window;
  state_window = b.state_window;
}

reset_windows-IsBounded :
    (p : String) (h : HealthMonitor) → IsBounded h → IsBounded (reset_windows p h)
unfolding reset_windows
reset_windows-IsBounded p h b = record {
  ring = b.ring;
  crash_window = λ q. window-delete p q h.crash_windows (b.crash_window q);
  state_window = λ q. window-delete p q h.state_windows (b.state_window q);
}

-- the fields that the bounds read are the same
same-IsBounded :
    (h k : HealthMonitor)
    → k.events ≡ h.events
    → k.crash_windows ≡ h.crash_windows
    → k.state_windows ≡ h.state_windows
    → IsBounded h
    → IsBounded k
same-IsBounded h k e c s b = record {
  ring = rw e b.ring;
  crash_window = λ q. rw c (b.crash_window q);
  state_window = λ q. rw s (b.state_window q);
}

quarantine-IsBounded :
    (now : ℕ) (p : String) (h : HealthMonitor) → IsBounded h → IsBounded (quarantine now p h)
unfolding quarantine
quarantine-IsBounded now p h b = record {
  ring = length-push_bounded 200 _ h.events;
  crash_window = λ q. window-delete p q h.crash_windows (b.crash_window q);
  state_window = λ q. window-delete p q h.state_windows (b.state_window q);
}

count_down-IsBounded :
    (now : ℕ) (p : String) (muted : ℕ) (h : HealthMonitor)
    → IsBounded h
    → IsBounded (count_down now p muted h)
unfolding count_down
count_down-IsBounded now p muted h b = elim (Bool-cases (leb muted 1)) [
  | inl e ↦ rw e (
      record_event-IsBounded now rearm (some p) _
        (reset_windows-IsBounded p _ (same-IsBounded h _ refl refl refl b)))
  | inr e ↦ rw e (same-IsBounded h _ refl refl refl b)
]

judge-IsBounded :
    (now : ℕ) (p : String) (win : List ℕ) (state : String) (h : HealthMonitor)
    → IsBounded h
    → IsBounded (judge now p win state h)
unfolding judge
judge-IsBounded now p [] state h b = b
judge-IsBounded now p (a ∷ []) state h b = b
judge-IsBounded now p (a ∷ a' ∷ []) state h b = b
judge-IsBounded now p (a ∷ a' ∷ c ∷ d ∷ win) state h b = b
judge-IsBounded now p (a ∷ a' ∷ c ∷ []) state h b =
    elim (Bool-cases (leb (a + 2) c || (leb (a + 1) c && state == "degraded"))) [
      | inl e ↦ rw e (quarantine-IsBounded now p h b)
      | inr e ↦ rw e b
    ]

watch-IsBounded :
    (now : ℕ) (p : String) (s : CompartmentStats) (h : HealthMonitor)
    → IsBounded h
    → IsBounded (watch now p s h)
unfolding watch
watch-IsBounded now p s h b =
    let win = window p h.crash_windows in
    let win' = push_bounded 3 s.crashes win in
    let states = push_bounded 3 s.state (window p h.state_windows) in
    let h1 : HealthMonitor = record h {
      crash_windows = Dict.put p win' h.crash_windows;
      state_windows = Dict.put p states h.state_windows;
    } in
    let b1 : IsBounded h1 = record {
      ring = b.ring;
      crash_window = λ q.
          window-put p q win' h.crash_windows (length-push_bounded 3 s.crashes win)
            (b.crash_window q);
      state_window = λ q.
          window-put p q states h.state_windows
            (length-push_bounded 3 s.state (window p h.state_windows)) (b.state_window q);
    } in
    elim (Bool-cases (leb 2 (length win') && ltb (or_else (get_last? win) s.crashes) s.crashes)) [
      | inl e ↦ rw e (
          judge-IsBounded now p win' s.state _
            (record_event-IsBounded now crash_increment (some p) h1 b1))
      | inr e ↦ rw e (judge-IsBounded now p win' s.state h1 b1)
    ]

observe-IsBounded :
    (now : ℕ) (p : String) (s : CompartmentStats) (h : HealthMonitor)
    → IsBounded h
    → IsBounded (observe now p s h)
unfolding observe
observe-IsBounded now p s h b = elim (Bool-cases (p == h.self_id)) [
  | inl e ↦ rw (e, observe) b
  | inr e ↦ elim (Bool-cases (is_standing p s h)) [
    | inl f ↦
        rw (e, observe)
          (rw f (
            quarantine-IsBounded now p _ (record_event-IsBounded now crash_increment (some p) h b)))
    | inr f ↦ elim (Option-cases (Dict.get p h.suppress)) [
      | inl g ↦ rw (e, observe) (rw f (rw (g, observe) (watch-IsBounded now p s h b)))
      | inr (muted, g) ↦
          rw (e, observe) (rw f (rw (g, observe) (count_down-IsBounded now p muted h b)))
    ]
  ]
]

observe_all-IsBounded :
    (now : ℕ) (stats : List (String × CompartmentStats)) (h : HealthMonitor)
    → IsBounded h
    → IsBounded (observe_all now stats h)
unfolding observe_all
observe_all-IsBounded now [] h b = b
observe_all-IsBounded now ((p, s) ∷ rest) h b =
    observe_all-IsBounded now rest (observe now p s h) (observe-IsBounded now p s h b)

-- one event of the loop: a poll, or the reply of a terminate
pub data HealthStep : Type 0 where
  polled : ℕ → Option (List (String × CompartmentStats)) → HealthStep
  replied : ℕ → String → HealthStep

unfoldable pub health_run : HealthMonitor → List HealthStep → HealthMonitor
health_run h [] = h
health_run h (polled now stats ∷ es) = health_run (poll now stats h) es
health_run h (replied now p ∷ es) = health_run (terminate_replied now p h) es

poll-IsBounded :
    (now : ℕ) (stats : Option (List (String × CompartmentStats))) (h : HealthMonitor)
    → IsBounded h
    → IsBounded (poll now stats h)
unfolding poll
poll-IsBounded now none h b = record_event-IsBounded now stats_error none h b
poll-IsBounded now (some stats) h b =
    observe_all-IsBounded now stats _ (same-IsBounded h _ refl refl refl b)

run-IsBounded :
    (h : HealthMonitor) (es : List HealthStep) → IsBounded h → IsBounded (health_run h es)
unfolding health_run terminate_replied
run-IsBounded h [] b = b
run-IsBounded h (polled now stats ∷ es) b =
    run-IsBounded (poll now stats h) es (poll-IsBounded now stats h b)
run-IsBounded h (replied now p ∷ es) b =
    run-IsBounded (terminate_replied now p h) es
      (record_event-IsBounded now terminated_event (some p) h b)

new-IsBounded : (self_id : String) → IsBounded (new self_id)
unfolding Dict.get
new-IsBounded self_id = record {
  ring = omega arith;
  crash_window = λ p. omega arith;
  state_window = λ p. omega arith;
}

-- However long the loop runs, it keeps at most 200 events and at most three polls of a compartment.
pub health_run-IsBounded :
    (self_id : String) (es : List HealthStep) → IsBounded (health_run (new self_id) es)
health_run-IsBounded self_id es = run-IsBounded (new self_id) es (new-IsBounded self_id)
