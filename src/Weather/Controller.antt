-- ===== src/Weather/Controller.antt =====
-- src/weather/controller/mod.rs: the weather controller.
--
-- A method returns its result, the controller after it and what it asked of the publisher, in
-- order. What it logs is left out. A poll is given what it awaits and reads: the two times of the
-- clock, what the fetch came to, and the devices connected when each candidate is published.
pub mod Equations
pub mod Overlay
pub mod Cache
pub mod Replay
use awtrix_controller.Prelude.{
  ℕ, ◌||◌, not, Bool, true, false, Option, none, some, List, [], ◌∷◌, ◌++◌, map, Result, ok, err,
  if◌then◌else◌,
}
use awtrix_controller.Prelude.Int.{ℤ, pos, leb_ℤ, saturating_mul}
use awtrix_controller.Prelude.Text.{Text, bytes, same}
use awtrix_controller.Instants.{Timestamp, SignedDuration, Instants, Floats}
use awtrix_controller.State.{StateError, Lock, acquire, put, checked}
use awtrix_controller.Config.Timezone.{Zones, load_time_zone}
use awtrix_controller.Model.Enums.{OverlayEffect, same_overlay}
use awtrix_controller.Model.Payload.{
  TextContent, plain, AppContent, default_content, Notification, default_notification,
}
use awtrix_controller.Weather.Config.{WeatherConfig}
use awtrix_controller.Weather.EventType.{
  EventType, thunderstorm, freezing_precip, frost_risk, heavy_rain, strong_gusts, snow, fog,
  Severity, warning, severe, EventCandidate,
}
use awtrix_controller.Weather.Mapping.{select_overlay}
use awtrix_controller.Weather.Events.{Point, detect_events}
use awtrix_controller.Weather.State.{StateManager, process, on_fetch_failure}
use awtrix_controller.Weather.State

pub record NotifiedForecast : Type 0 where
  pub candidates : List EventCandidate
  pub notified_at : Timestamp
  pub fetched_at : Timestamp

pub record Memory : Type 0 where
  pub overlay : Option OverlayEffect
  pub last_notified : Option NotifiedForecast

pub record Controller (F Zone : Type 0) : Type 0 where
  pub config : WeatherConfig F
  pub latitude : F
  pub longitude : F
  pub timezone : Text
  pub zone : Zone
  pub states : Lock StateManager
  pub memory : Lock Memory

-- What the controller asks of its `Publisher`.
pub data Request : Type 0 where
  set_overlay : Option OverlayEffect → Request
  publish : Text → Notification → Request

-- What the awaited fetch came to: the points, `FetchError::Cancelled`, another error, the timeout.
pub data Fetched (P : Type 0) : Type 0 where
  points : List P → Fetched P
  cancelled fetch_error elapsed : Fetched P

abbrev pub event_label : EventType → Text
event_label thunderstorm = bytes "Thunderstorm"
event_label freezing_precip = bytes "Freezing rain"
event_label frost_risk = bytes "Frost risk"
event_label heavy_rain = bytes "Heavy rain"
event_label strong_gusts = bytes "Strong gusts"
event_label snow = bytes "Snow"
event_label fog = bytes "Fog"

abbrev pub event_icon : EventType → Text
event_icon thunderstorm = bytes "49299"
event_icon freezing_precip = bytes "49301"
event_icon frost_risk = bytes "4807"
event_icon heavy_rain = bytes "49300"
event_icon strong_gusts = bytes "3363"
event_icon snow = bytes "2289"
event_icon fog = bytes "17056"

abbrev pub severity_color : Severity → Text
severity_color severe = bytes "#FFFF00"
severity_color warning = []

module _ (time : Instants) (fl : Floats) (z : Zones) where
  abbrev pub Self : Type 0
  Self = Controller fl.F z.Zone

  pub record Outcome : Type 0 where
    pub result : Result StateError (Unit {0})
    pub after : Self
    pub requests : List Request

  unfoldable pub minutes : ℤ → SignedDuration
  minutes count = time.from_secs (saturating_mul count (pos 60))

  -- `with_fetch_function`; the zone of an unknown name is UTC.
  unfoldable pub with_fetch_function : WeatherConfig fl.F → fl.F → fl.F → Text → Self
  with_fetch_function config latitude longitude timezone =
      let name : Text = if same timezone [] then bytes "UTC" else timezone in
      record {
        config = config;
        latitude = latitude;
        longitude = longitude;
        timezone = name;
        zone = elim (load_time_zone z name) [ ok zone ↦ zone | err _ ↦ z.utc ];
        states = record { value = State.new; is_poisoned = false };
        memory = record {
          value = record { overlay = none; last_notified = none };
          is_poisoned = false;
        };
      }

  unfoldable pub local_time : Self → Timestamp → Text
  local_time c instant = z.hours_minutes c.zone instant

  unfoldable pub notification : Self → EventCandidate → Notification
  notification c candidate =
      let text =
        event_label candidate.event_type ++ (bytes " from " ++ local_time c candidate.start_time) in
      record default_notification {
        content = record default_content {
          text = some (plain text);
          icon = event_icon candidate.event_type;
          color = severity_color candidate.severity;
          repeat = some c.config.notification_text_repeat;
        };
        rtttl = c.config.rtttl;
        wakeup = true;
      }

  abbrev pub publish_to : Self → Text → EventCandidate → Request
  publish_to c client_id candidate = publish client_id (notification c candidate)

  -- `publish_candidate`, given the devices connected then; that a publish fails is only logged.
  abbrev pub publish_candidate : Self → List Text → EventCandidate → List Request
  publish_candidate c connected candidate =
      map (λ client_id. publish_to c client_id candidate) connected

  unfoldable pub publish_all :
      Self → (EventCandidate → List Text) → List EventCandidate → List Request
  publish_all c connected [] = []
  publish_all c connected (candidate ∷ cs) =
      publish_candidate c (connected candidate) candidate ++ publish_all c connected cs

  abbrev pub lock_memory : Self → Result StateError Memory
  lock_memory c = checked (acquire c.memory) (bytes "weather notification cache")

  abbrev pub lock_states : Self → Result StateError StateManager
  lock_states c = checked (acquire c.states) (bytes "weather event state")

  unfoldable pub apply_overlay : Self → Option OverlayEffect → Outcome
  apply_overlay c overlay = elim (lock_memory c) [
    | err e ↦ record { result = err e; after = c; requests = [] }
    | ok memory ↦ record {
      result = ok tt;
      after = record c { memory = put (record memory { overlay = overlay }) c.memory };
      requests = if not (same_overlay memory.overlay overlay) then set_overlay overlay ∷ [] else [];
    }
  ]

  unfoldable pub fetch_failed : Self → Outcome
  fetch_failed c = elim (lock_states c) [
    | err e ↦ record { result = err e; after = c; requests = [] }
    | ok states ↦ apply_overlay (record c { states = put (on_fetch_failure states) c.states }) none
  ]

  -- The end of a poll, with the candidates to notify: nothing is kept or sent when there are none.
  unfoldable pub notify :
      Self → (EventCandidate → List Text) → Timestamp → Timestamp → List EventCandidate → Outcome
  notify c connected fetch_start now [] = record { result = ok tt; after = c; requests = [] }
  notify c connected fetch_start now (candidate ∷ cs) = elim (lock_memory c) [
    | err e ↦ record { result = err e; after = c; requests = [] }
    | ok memory ↦ record {
      result = ok tt;
      after = record c {
        memory =
            put
              (record memory {
                last_notified = some (record {
                  candidates = candidate ∷ cs;
                  notified_at = now;
                  fetched_at = fetch_start;
                });
              })
              c.memory;
      };
      requests = publish_all c connected (candidate ∷ cs);
    }
  ]

  -- The middle of a poll: the events of the forecast and what they do to the event states.
  unfoldable pub detect :
      Self → (EventCandidate → List Text) → Timestamp → Timestamp → List (Point time fl) → Outcome
  detect c connected fetch_start now ps = elim (lock_states c) [
    | err e ↦ record { result = err e; after = c; requests = [] }
    | ok states ↦
        let (states', to_notify) =
          process time now (minutes c.config.notification_repeat_minutes)
            c.config.inactive_after_missing_polls states (detect_events time fl ps now c.config) in
        notify (record c { states = put states' c.states }) connected fetch_start now to_notify
  ]

  -- `?` after a call: the rest runs on success.
  unfoldable pub and_then : Outcome → (Self → Outcome) → Outcome
  and_then o f = elim o.result [
    | err e ↦ o
    | ok _ ↦ let rest = f o.after in record rest { requests = o.requests ++ rest.requests }
  ]

  unfoldable pub poll :
      Self
      → (EventCandidate → List Text)
      → Timestamp
      → Timestamp
      → Fetched (Point time fl)
      → Outcome
  poll c connected fetch_start now cancelled = record { result = ok tt; after = c; requests = [] }
  poll c connected fetch_start now fetch_error = fetch_failed c
  poll c connected fetch_start now elapsed = fetch_failed c
  poll c connected fetch_start now (points ps) =
      and_then (apply_overlay c (select_overlay time ps now c.config.overlay_horizon_minutes))
        (λ c'. detect c' connected fetch_start now ps)

  -- What a device that connects is sent of the cached batch.
  unfoldable pub replay : Self → Text → Timestamp → Option NotifiedForecast → List Request
  replay c client_id now none = []
  replay c client_id now (some cached) =
      let repeat_interval = minutes c.config.notification_repeat_minutes in
      let ttl = minutes c.config.data_stale_ttl_minutes in
      if leb_ℤ repeat_interval (time.duration_since now cached.notified_at)
        || leb_ℤ ttl (time.duration_since now cached.fetched_at)
      then []
      else map (publish_to c client_id) cached.candidates

  unfoldable pub on_device_connected : Self → Text → Timestamp → Outcome
  on_device_connected c client_id now = elim (lock_memory c) [
    | err e ↦ record { result = err e; after = c; requests = [] }
    | ok memory ↦ record {
      result = ok tt;
      after = c;
      requests = replay c client_id now memory.last_notified;
    }
  ]
