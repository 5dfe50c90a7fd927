-- ===== src/Weather/Events/Slots.antt =====
-- src/weather/events/mod.rs: the loop over the points, seen from the slot of one type.
use awtrix_controller.Prelude.{
  ◌≡◌, refl, ◌∙◌, ◌||◌, Bool, Option, none, some, List, [], ◌∷◌, arith, ltb, not, filter,
  filter_map, cons_option, Bool-cases, inl, inr, if◌then◌else◌,
}
use mathlib.Core.Path.{subst}
use awtrix_controller.Instants.{Timestamp, Instants, Floats}
use awtrix_controller.Weather.Config.{WeatherConfig}
use awtrix_controller.Weather.EventType.{
  same_type→eq, EventType, thunderstorm, freezing_precip, frost_risk, heavy_rain, strong_gusts,
  snow, fog, same_type, Severity, severe,
}
use awtrix_controller.Weather.Events.{
  Point, Detection, Detections, merge, record_event, record_found, thunderstorm_of, frost_risk_of,
  heavy_rain_of, strong_gusts_of, snow_of, fog_of, is_some_and, then_some, is_freezing_precip_code,
  check_point, check_points,
}
use awtrix_controller.Weather.Events.Least.{merge_all}

-- The hit of a type at a time.
abbrev pub hit : Timestamp → Option Severity → Option Detection
hit time none = none
hit time (some severity) = some (record { first = time; severity = severity })

-- What recording one hit does to the slot of a type.
abbrev recorded : Option Detection → Option Detection → Option Detection
recorded slot none = slot
recorded slot (some h) = some (merge slot h.first h.severity)

record_found_at :
    (d : Detections) (e : EventType) (time : Timestamp) (o : Option Severity) (e' : EventType)
    → record_found d e time o e' ≡ (if same_type e e' then recorded (d e') (hit time o) else d e')
unfolding record_found record_event
record_found_at d e time none e' = ground arith
record_found_at d e time (some s) e' = elim (Bool-cases (same_type e e')) [
  | inl h ↦
      subst
        (λ x.
          record_event d e time s x ≡ (if same_type e x then some (merge (d x) time s) else d x))
        (same_type→eq e e' h) refl
  | inr h ↦ rw h refl
]

merge_all-recorded :
    (slot o : Option Detection) (hs : List Detection)
    → merge_all (recorded slot o) hs ≡ merge_all slot (cons_option o hs)
unfolding merge_all
merge_all-recorded slot none hs = refl
merge_all-recorded slot (some h) hs = refl

module _ (time : Instants) (fl : Floats) where
  -- The test of each type at a point.
  abbrev pub verdict :
      EventType → Point time fl → List (Point time fl) → WeatherConfig fl.F → Option Severity
  verdict thunderstorm point points config = thunderstorm_of time fl point
  verdict freezing_precip point points config =
      then_some (is_some_and point.weather_code is_freezing_precip_code) severe
  verdict frost_risk point points config = frost_risk_of time fl point points config
  verdict heavy_rain point points config = heavy_rain_of time fl point config
  verdict strong_gusts point points config = strong_gusts_of time fl point config
  verdict snow point points config = snow_of time fl point
  verdict fog point points config = fog_of time fl point config

  check_point_at :
      (e : EventType) (point : Point time fl) (points : List (Point time fl))
      (config : WeatherConfig fl.F) (d : Detections)
      → check_point time fl point points config d e
        ≡ recorded (d e) (hit point.time (verdict e point points config))
  unfolding check_point
  check_point_at thunderstorm point points config d = simp (record_found_at)
  check_point_at freezing_precip point points config d = simp (record_found_at)
  check_point_at frost_risk point points config d = simp (record_found_at)
  check_point_at heavy_rain point points config d = simp (record_found_at)
  check_point_at strong_gusts point points config d = simp (record_found_at)
  check_point_at snow point points config d = simp (record_found_at)
  check_point_at fog point points config d = simp (record_found_at)

  abbrev pub is_outside : Timestamp → Timestamp → Point time fl → Bool
  is_outside now horizon p = ltb p.time now || ltb horizon p.time

  abbrev pub hit_of :
      EventType → List (Point time fl) → WeatherConfig fl.F → Point time fl → Option Detection
  hit_of e points config p = hit p.time (verdict e p points config)

  -- The hits of a type among the points of the window, in the order of the points.
  unfoldable pub hits :
      EventType
      → List (Point time fl)
      → List (Point time fl)
      → Timestamp
      → Timestamp
      → WeatherConfig fl.F
      → List Detection
  hits e ps points now horizon config =
      filter_map (hit_of e points config) (filter (λ p. not (is_outside now horizon p)) ps)

  -- After the loop, the slot of a type has recorded its hits and nothing else.
  pub check_points-hits :
      (e : EventType) (ps points : List (Point time fl)) (now horizon : Timestamp)
      (config : WeatherConfig fl.F) (d : Detections)
      → check_points time fl ps points now horizon config d e
        ≡ merge_all (d e) (hits e ps points now horizon config)
  unfolding check_points merge_all hits
  check_points-hits e [] points now horizon config d = refl
  check_points-hits e (p ∷ ps) points now horizon config d =
      elim (Bool-cases (is_outside now horizon p)) [
        | inl h ↦ rw h (check_points-hits e ps points now horizon config d)
        | inr h ↦ rw h (
            check_points-hits e ps points now horizon config (check_point time fl p points config d)
            ∙ rw (check_point_at e p points config d) (
                merge_all-recorded (d e) (hit p.time (verdict e p points config))
                  (hits e ps points now horizon config)))
      ]
