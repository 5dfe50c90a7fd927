-- ===== src/Weather/State.antt =====
-- src/weather/state/mod.rs: the notification state of each event type across polls.
pub mod PerType
pub mod Bounds
pub mod Deactivation
use awtrix_controller.Prelude.{
  ℕ, ◌≡◌, ◌&&◌, ◌||◌, not, Bool, true, false, Option, none, some, List, [], ◌∷◌, ◌++◌, ltb, find,
  cons_option, if◌then◌else◌,
}
use mathlib.Core.List.{reverse}
use awtrix_controller.Prelude.Int.{ℤ, pos, wrapping_add, leb_ℤ}
use awtrix_controller.Prelude.Text.{Text, same}
use awtrix_controller.Instants.{Timestamp, SignedDuration, Instants}
use awtrix_controller.Weather.EventType.{
  EventType, all_types, same_type, Severity, rank, EventCandidate, update,
}

pub record EventState : Type 0 where
  pub active : Bool
  pub fingerprint : Text
  pub severity : Option Severity
  pub last_sent_at : Option Timestamp
  pub last_seen_at : Option Timestamp
  pub missing_polls : ℤ

abbrev pub default : EventState
default = record {
  active = false;
  fingerprint = [];
  severity = none;
  last_sent_at = none;
  last_seen_at = none;
  missing_polls = pos 0;
}

-- `StateManager`: the array of the states.
abbrev pub StateManager : Type 0
StateManager = EventType → EventState

unfoldable pub new : StateManager
new _ = default

-- The last candidate of the type: `iter().rev().find(…)`.
unfoldable pub latest : List EventCandidate → EventType → Option EventCandidate
latest candidates event_type = find (λ c. same_type c.event_type event_type) (reverse candidates)

module _ (time : Instants) (now : Timestamp) (repeat_interval : SignedDuration)
    (inactive_after : ℤ) where
  -- `last_sent_at.is_none_or(…)`.
  abbrev pub is_repeat_due : Option Timestamp → Bool
  is_repeat_due none = true
  is_repeat_due (some last_sent) = leb_ℤ repeat_interval (time.duration_since now last_sent)

  unfoldable pub should_notify : EventState → EventCandidate → Bool
  should_notify state candidate =
      not state.active
      || (ltb (rank state.severity) (rank (some candidate.severity))
          || (not (same candidate.fingerprint state.fingerprint)
              || is_repeat_due state.last_sent_at))

  -- The branch of a type that was found.
  unfoldable pub seen : EventState → EventCandidate → EventState
  seen state candidate = record {
    active = true;
    fingerprint = candidate.fingerprint;
    severity = some candidate.severity;
    last_sent_at = if should_notify state candidate then some now else state.last_sent_at;
    last_seen_at = some now;
    missing_polls = pos 0;
  }

  -- The branch of a type that was not found.
  unfoldable pub missed : EventState → EventState
  missed state =
      let missing = wrapping_add state.missing_polls (pos 1) in
      if state.active
      then if leb_ℤ inactive_after missing
        then record state { active = false; missing_polls = pos 0 }
        else record state { missing_polls = missing }
      else state

  -- What one pass of the loop pushes, and the state that it leaves.
  abbrev pub notice : EventState → Option EventCandidate → Option EventCandidate
  notice state none = none
  notice state (some candidate) = if should_notify state candidate then some candidate else none

  abbrev pub stepped : EventState → Option EventCandidate → EventState
  stepped state none = missed state
  stepped state (some candidate) = seen state candidate

  unfoldable pub process_types :
      List EventCandidate
      → List EventType
      → StateManager
      → List EventCandidate
      → StateManager × List EventCandidate
  process_types candidates [] states to_notify = (states, to_notify)
  process_types candidates (event_type ∷ types) states to_notify =
      let state = states event_type in
      let candidate = latest candidates event_type in
      process_types candidates types (update states event_type (stepped state candidate))
        (to_notify ++ cons_option (notice state candidate) [])

  -- `StateManager::process`.
  unfoldable pub process : StateManager → List EventCandidate → StateManager × List EventCandidate
  unfolding process_types
  process states candidates = process_types candidates all_types states []

unfoldable pub on_fetch_failure : StateManager → StateManager
on_fetch_failure states = states

unfoldable pub is_active : StateManager → EventType → Bool
is_active states event_type = (states event_type).active
