-- ===== src/Run/Health.antt =====
-- The health loop, plugins/vivim-run/src/health.ts (`HealthMonitor`). `Date.now()` is the argument
-- `now`; the details of events and the reasons are texts for people and left out. The calls of host
-- op compartmentTerminate that are fired are listed in `terminated`; their replies are the events of
-- `terminate_replied`. A poll that `busy` drops is no event. The stats of a poll come in the order of the reply's fields.
pub mod Backoff
pub mod Windows
mod Examples
use vivim_omega.Common.{
  ℕ, zero, suc, ◌+◌, ◌-◌, ◌^◌, String, Bool, true, false, not, ◌&&◌, ◌||◌, Option, none, some, List,
  [], ◌∷◌, ◌++◌, ◌==◌, ltb, leb, eqb, if◌then◌else◌, or_else, length, get_last?,
}
use vivim_omega.Common.Dict
use vivim_omega.Common.Dict.{Dict}

pub record CompartmentStats : Type 0 where
  pub state : String
  pub crashes : ℕ

pub data HealthEventType : Type 0 where
  started stats_error crash_increment quarantined_event terminated_event rearm : HealthEventType

pub record HealthEvent : Type 0 where
  pub at : ℕ
  pub kind : HealthEventType
  pub plugin_id : Option String

pub record QuarantineRecord : Type 0 where
  pub plugin_id : String
  pub at : ℕ

abbrev pub window_polls : ℕ
window_polls = 3

abbrev pub ring_max : ℕ
ring_max = 200

pub record HealthMonitor : Type 0 where
  pub events : List HealthEvent
  pub quarantined : List QuarantineRecord
  pub crash_windows : Dict (List ℕ)
  pub state_windows : Dict (List String)
  pub quarantine_count : Dict ℕ
  pub suppress : Dict ℕ
  pub polls : ℕ
  pub self_id : String
  pub terminated : List String

abbrev pub new : String → HealthMonitor
new self_id = record {
  events = [];
  quarantined = [];
  crash_windows = [];
  state_windows = [];
  quarantine_count = [];
  suppress = [];
  polls = 0;
  self_id = self_id;
  terminated = [];
}

unfoldable pub drop {ℓ} : {A : Type ℓ} → ℕ → List A → List A
drop zero xs = xs
drop (suc n) [] = []
drop (suc n) (x ∷ xs) = drop n xs

-- `list.push(x); if (list.length > max) list.splice(0, list.length - max)`
unfoldable pub push_bounded {ℓ} : {A : Type ℓ} → ℕ → A → List A → List A
unfolding drop
push_bounded max x xs = let ys = xs ++ x ∷ [] in drop (length ys - max) ys

-- `record`
unfoldable pub record_event : ℕ → HealthEventType → Option String → HealthMonitor → HealthMonitor
unfolding push_bounded
record_event now kind plugin_id h = record h {
  events = push_bounded ring_max (record { at = now; kind = kind; plugin_id = plugin_id }) h.events;
}

unfoldable pub reset_windows : String → HealthMonitor → HealthMonitor
reset_windows plugin_id h = record h {
  crash_windows = Dict.delete plugin_id h.crash_windows;
  state_windows = Dict.delete plugin_id h.state_windows;
}

unfoldable pub quarantine : ℕ → String → HealthMonitor → HealthMonitor
unfolding reset_windows record_event
quarantine now plugin_id h =
    let n = or_else (Dict.get plugin_id h.quarantine_count) 0 + 1 in
    let h1 = record h {
      quarantine_count = Dict.put plugin_id n h.quarantine_count;
      suppress = Dict.put plugin_id (2 ^ n) h.suppress;
      quarantined = h.quarantined ++ record { plugin_id = plugin_id; at = now } ∷ [];
    } in
    let h2 = record_event now quarantined_event (some plugin_id) (reset_windows plugin_id h1) in
    record h2 { terminated = h2.terminated ++ plugin_id ∷ [] }

-- the backoff window: `muted` polls are left
unfoldable pub count_down : ℕ → String → ℕ → HealthMonitor → HealthMonitor
unfolding reset_windows record_event
count_down now plugin_id muted h =
    if leb muted 1
    then record_event now rearm (some plugin_id)
        (reset_windows plugin_id (record h { suppress = Dict.delete plugin_id h.suppress }))
    else record h { suppress = Dict.put plugin_id (muted - 1) h.suppress }

-- `win.length === WINDOW_POLLS`: the crash loop and crash persistence rules
unfoldable pub judge : ℕ → String → List ℕ → String → HealthMonitor → HealthMonitor
unfolding quarantine
judge now plugin_id (a ∷ b ∷ c ∷ []) state h =
    if leb (a + 2) c || (leb (a + 1) c && state == "degraded")
    then quarantine now plugin_id h
    else h
judge now plugin_id win state h = h

-- the windows of a compartment that is neither muted nor quarantined at first sight
unfoldable pub watch : ℕ → String → CompartmentStats → HealthMonitor → HealthMonitor
unfolding push_bounded record_event judge
watch now plugin_id s h =
    let win = or_else (Dict.get plugin_id h.crash_windows) [] in
    let prev = or_else (get_last? win) s.crashes in
    let win' = push_bounded window_polls s.crashes win in
    let h1 = record h {
      crash_windows = Dict.put plugin_id win' h.crash_windows;
      state_windows =
          Dict.put plugin_id
            (push_bounded window_polls s.state (or_else (Dict.get plugin_id h.state_windows) []))
            h.state_windows;
    } in
    let h2 =
      if leb 2 (length win') && ltb prev s.crashes
      then record_event now crash_increment (some plugin_id) h1
      else h1 in
    judge now plugin_id win' s.state h2

abbrev pub is_seen : String → HealthMonitor → Bool
is_seen plugin_id h = Dict.has plugin_id h.crash_windows || Dict.has plugin_id h.state_windows

-- `!seenBefore && s.state === "degraded" && s.crashes >= 1`
abbrev pub is_standing : String → CompartmentStats → HealthMonitor → Bool
is_standing plugin_id s h = not (is_seen plugin_id h) && (s.state == "degraded" && leb 1 s.crashes)

unfoldable pub observe : ℕ → String → CompartmentStats → HealthMonitor → HealthMonitor
unfolding quarantine record_event count_down watch
observe now plugin_id s h =
    if plugin_id == h.self_id
    then h
    else if is_standing plugin_id s h
    then quarantine now plugin_id (record_event now crash_increment (some plugin_id) h)
    else elim (Dict.get plugin_id h.suppress) [
      | some muted ↦ count_down now plugin_id muted h
      | none ↦ watch now plugin_id s h
    ]

unfoldable pub observe_all : ℕ → List (String × CompartmentStats) → HealthMonitor → HealthMonitor
unfolding observe
observe_all now [] h = h
observe_all now ((plugin_id, s) ∷ rest) h = observe_all now rest (observe now plugin_id s h)

-- `poll`, behind the reply: `none` where the call of host op compartmentStats failed
unfoldable pub poll : ℕ → Option (List (String × CompartmentStats)) → HealthMonitor → HealthMonitor
unfolding observe_all record_event
poll now none h = record_event now stats_error none h
poll now (some stats) h = observe_all now stats (record h { polls = h.polls + 1 })

unfoldable pub terminate_replied : ℕ → String → HealthMonitor → HealthMonitor
unfolding record_event
terminate_replied now plugin_id h = record_event now terminated_event (some plugin_id) h
