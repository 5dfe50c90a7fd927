-- ===== src/EnergySaving.antt =====
-- src/energysaving/mod.rs: the nightly window and the controller that follows it.
pub mod Active
pub mod Steady
use awtrix_controller.Prelude.{
  ℕ, suc, zero, ◌+◌, ◌*◌, ◌∷◌, ◌++◌, ◌&&◌, not, Bool, true, false, Option, none, some, List, [],
  ltb, leb, any, cons_option, filter_map, unwrap_or, if◌then◌else◌, Result, ok, err,
}
use awtrix_controller.Prelude.Text.{Text}
use awtrix_controller.Instants.{Timestamp}
use awtrix_controller.Clock.{
  Date, Time, Calendar, yesterday, tomorrow, resolve_local, and_then, next_local_midnight,
}
use awtrix_controller.Config.TimeOfDay.{TimeOfDay, ParseError, time_from_str}

-- `MAX_WINDOW_SEARCH_DAYS`.
abbrev pub max_window_search_days : ℕ
max_window_search_days = 8

-- A `Window`, in the zone of a calendar that its functions are given.
pub record Window : Type 0 where
  pub start : Time
  pub end : Time

-- The hour and the minute are in range by construction.
abbrev pub civil_time : TimeOfDay → Time
civil_time t = t.hour * 60 + t.minute

-- `Window::new`.
abbrev pub window_new : TimeOfDay → TimeOfDay → Window
window_new start end = record { start = civil_time start; end = civil_time end }

-- `Option::filter` by `start < end`.
abbrev pub non_empty : Option (Timestamp × Timestamp) → Option (Timestamp × Timestamp)
non_empty none = none
non_empty (some (start, end)) = if ltb start end then some (start, end) else none

abbrev pub is_inside : Timestamp → Timestamp × Timestamp → Bool
is_inside instant (start, end) = leb start instant && ltb instant end

-- The arms of the `match`: the boundary that is returned, if any.
unfoldable pub boundary_after : Timestamp → Option (Timestamp × Timestamp) → Option Timestamp
boundary_after now none = none
boundary_after now (some (start, end)) =
    if ltb start end
    then if ltb now start then some start else if ltb now end then some end else none
    else none

abbrev pub later : Timestamp → Timestamp → Timestamp
later a b = if leb a b then b else a

abbrev pub differ : Bool → Bool → Bool
differ true b = not b
differ false b = b

module _ (cal : Calendar) where
  -- `if self.end > self.start`.
  abbrev pub end_date : Window → Date → Option Date
  end_date w date = if ltb w.start w.end then some date else tomorrow cal date

  unfoldable pub resolve : Window → Date → Option (Timestamp × Timestamp)
  resolve w date = and_then (resolve_local cal date w.start) (λ start.
      and_then (end_date w date)
        (λ date'. and_then (resolve_local cal date' w.end) (λ end. some (start, end))))

  abbrev pub for_date : Window → Date → Option (Timestamp × Timestamp)
  for_date w date = non_empty (resolve w date)

  -- `Window::is_active`.
  unfoldable pub is_active : Window → Timestamp → Bool
  is_active w instant =
      let today = cal.local_date instant in
      any (is_inside instant) (filter_map (for_date w) (cons_option (yesterday today) (today ∷ [])))

  -- The loop, with the rounds that are left.
  unfoldable pub search : Window → Timestamp → ℕ → Date → Option Timestamp
  search w now zero date = none
  search w now (suc rounds) date = elim (boundary_after now (resolve w date)) [
    | some boundary ↦ some boundary
    | none ↦ elim (tomorrow cal date) [ none ↦ none | some date' ↦ search w now rounds date' ]
  ]

  unfoldable pub next_transition : Window → Timestamp → Option Timestamp
  next_transition w now =
      let today = cal.local_date now in
      search w now max_window_search_days (unwrap_or (yesterday today) today)

-- `EnergySaving`; `called` are the states that `on_change` was called with.
pub record EnergySaving : Type 0 where
  pub window : Window
  pub active : Bool
  pub called : List Bool

-- `EnergySavingConfig`.
pub record EnergySavingConfig : Type 0 where
  pub start : Text
  pub end : Text

unfoldable pub new : EnergySavingConfig → Result ParseError EnergySaving
new config = elim (time_from_str config.start) [
  | err e ↦ err e
  | ok start ↦ elim (time_from_str config.end) [
    | err e ↦ err e
    | ok end ↦ ok (record { window = window_new start end; active = false; called = [] })
  ]
]

module _ (cal : Calendar) where
  unfoldable pub arm : EnergySaving → Timestamp → Timestamp
  arm es after = unwrap_or (next_transition cal es.window after) (next_local_midnight cal after)

  -- `start`: the controller, and the instant that is scheduled.
  unfoldable pub start : EnergySaving → Timestamp → EnergySaving × Timestamp
  start es now = (record es { active = is_active cal es.window now }, arm es now)

  -- `update`, given the time that the clock shows.
  unfoldable pub update : EnergySaving → Timestamp → Timestamp → Option Bool × EnergySaving
  update es clock_now due =
      let active = is_active cal es.window (later clock_now due) in
      (if differ es.active active then some active else none, record es { active = active })

  -- `transition` of a controller that lives.
  unfoldable pub transition : EnergySaving → Timestamp → Timestamp → EnergySaving
  transition es clock_now due =
      let (changed, es') = update es clock_now due in
      elim changed [ none ↦ es' | some active ↦ record es' { called = es'.called ++ active ∷ [] } ]
