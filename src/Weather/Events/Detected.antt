-- ===== src/Weather/Events/Detected.antt =====
-- src/weather/events/mod.rs: the candidates of a forecast against the points that qualify.
use awtrix_controller.Prelude.{
  ◌≡◌, refl, sym, ap, ◌∙◌, ◌≤◌, inl, inr, ◌↔◌, Bool, true, Option, none, some, List, Memᴰ, arith,
  not, filter, filter-Memᴰ, Memᴰ-filter, filter_map-Memᴰ, Memᴰ-filter_map, Option-cases,
}
use mathlib.Core.Path.{subst}
use mathlib.Core.Option.{some-injective, none-ne-some}
use awtrix_controller.Instants.{Timestamp, Instants, Floats}
use awtrix_controller.Weather.Config.{WeatherConfig}
use awtrix_controller.Weather.EventType.{
  Memᴰ-all_types, EventType, all_types, Severity, level, EventCandidate,
}
use awtrix_controller.Weather.Events.{
  Point, Detection, Detections, is_notify_enabled, notification_horizon, check_points, candidate_of,
  candidate_from, detect_events,
}
use awtrix_controller.Weather.Events.Least.{merge_all, merge_all-Summarises, merge_all_found}
use awtrix_controller.Weather.Events.Slots.{
  hit, verdict, hits, hit_of, is_outside, check_points-hits,
}

module _ (time : Instants) (fl : Floats) (points : List (Point time fl)) (now : Timestamp)
    (config : WeatherConfig fl.F) where
  -- A point of the forecast, from now to the horizon, at which the test of a type finds a severity.
  abbrev pub Qualifies : EventType → Point time fl → Severity → Type 0
  Qualifies e p s =
      Memᴰ p points
      × (now ≤ p.time)
      × (p.time ≤ notification_horizon time fl now config)
      × (verdict time fl e p points config ≡ some s)

  abbrev horizon : Timestamp
  horizon = notification_horizon time fl now config

  abbrev hits_of : EventType → List Detection
  hits_of e = hits time fl e points points now horizon config

  abbrev inside : Point time fl → Bool
  inside p = not (is_outside time fl now horizon p)

  hit_of_iff :
      (e : EventType) (p : Point time fl) (h : Detection)
      → (hit_of time fl e points config p ≡ some h)
        ↔ ((verdict time fl e p points config ≡ some h.severity) × (h.first ≡ p.time))
  hit_of_iff e p h =
      (there (verdict time fl e p points config), back (verdict time fl e p points config))
    where
      there :
          (o : Option Severity) → hit p.time o ≡ some h → (o ≡ some h.severity) × (h.first ≡ p.time)
      there none q = absurd (none-ne-some h q)
      there (some s) q =
          let same = some-injective _ h q in
          (ap (λ x. some x.severity) same, sym (ap (λ x. x.first) same))

      back :
          (o : Option Severity) → (o ≡ some h.severity) × (h.first ≡ p.time) → hit p.time o ≡ some h
      back none (q, _) = absurd (none-ne-some h.severity q)
      back (some s) (q, f) = rw (some-injective s h.severity q, sym f) refl

  -- The hits of a type are those of the points that qualify.
  hits-Memᴰ :
      (e : EventType) (h : Detection)
      → Memᴰ h (hits_of e)
      → (p : Point time fl) × Qualifies e p h.severity × (h.first ≡ p.time)
  unfolding hits
  hits-Memᴰ e h m =
      let (p, n, q) = filter_map-Memᴰ (hit_of time fl e points config) h (filter inside points) m in
      let (k, i) = filter-Memᴰ inside p points n in
      let (v, f) = (hit_of_iff e p h).0 q in (p, (k, ground arith, ground arith, v), f)

  Memᴰ-hits :
      (e : EventType) (p : Point time fl) (s : Severity)
      → Qualifies e p s
      → Memᴰ (record { first = p.time; severity = s }) (hits_of e)
  unfolding hits
  Memᴰ-hits e p s (m, l, r, v) =
      Memᴰ-filter_map (hit_of time fl e points config) p (filter inside points)
        (Memᴰ-filter inside p points m (ground arith))
        ((hit_of_iff e p (record { first = p.time; severity = s })).1 (v, refl))

  abbrev detections : Detections
  detections = check_points time fl points points now horizon config (λ _. none)

  slot_eq : (e : EventType) → detections e ≡ merge_all none (hits_of e)
  slot_eq e = check_points-hits time fl e points points now horizon config (λ _. none)

  -- The candidate comes from the detection of its type.
  candidate_of-found :
      (ds : Detections) (e : EventType) (c : EventCandidate)
      → candidate_of time fl ds e ≡ some c
      → (d : Detection) × (ds e ≡ some d) × (c ≡ candidate_from time e d)
  unfolding candidate_of
  candidate_of-found ds e c h = elim (Option-cases (ds e)) [
    | inl q ↦ absurd (none-ne-some c (rw (q, candidate_of) at h))
    | inr (d, q) ↦ (d, q, sym (some-injective _ c (rw (q, candidate_of) at h)))
  ]

  candidate_of-some :
      (ds : Detections) (e : EventType) (d : Detection)
      → ds e ≡ some d
      → candidate_of time fl ds e ≡ some (candidate_from time e d)
  unfolding candidate_of
  candidate_of-some ds e d q = rw (q, candidate_of) refl

  abbrev is_enabled : EventType → Bool
  is_enabled e = is_notify_enabled time fl e config

  -- A candidate's type is enabled, and the candidate is what the summary of the hits of its type
  -- makes it.
  detect_events-found :
      (c : EventCandidate)
      → Memᴰ c (detect_events time fl points now config)
      → (is_enabled c.event_type ≡ true)
        × ((d : Detection) × (merge_all none (hits_of c.event_type) ≡ some d)
            × (c ≡ candidate_from time c.event_type d))
  unfolding detect_events
  detect_events-found c m =
      let (e, n, q) =
        filter_map-Memᴰ (candidate_of time fl detections) c (filter is_enabled all_types) m in
      let (_, on) = filter-Memᴰ is_enabled e all_types n in
      let (d, s, t) = candidate_of-found detections e c q in
      let P : EventType → Type 0 = λ e'.
        (is_enabled e' ≡ true)
        × ((d : Detection) × (merge_all none (hits_of e') ≡ some d)
            × (c ≡ candidate_from time e' d)) in
      subst P (sym (ap (λ x. x.event_type) t)) (on, (d, sym (slot_eq e) ∙ s, t))

  -- A candidate is of an enabled type; it starts at a point that qualifies, has the severity of a
  -- point that qualifies, and no point that qualifies for its type is earlier or severer. The points
  -- that qualify are those from now to the horizon whose test finds a severity.
  pub detect_events_sound :
      (c : EventCandidate)
      → Memᴰ c (detect_events time fl points now config)
      → (is_notify_enabled time fl c.event_type config ≡ true)
        × ((p : Point time fl) × (s : Severity) × Qualifies c.event_type p s
            × (p.time ≡ c.start_time))
        × ((p : Point time fl) × Qualifies c.event_type p c.severity)
        × ((p : Point time fl) (s : Severity)
            → Qualifies c.event_type p s
            → (c.start_time ≤ p.time) × (level s ≤ level c.severity))
  detect_events_sound c m =
      let (on, (d, q, t)) = detect_events-found c m in
      let f : c.start_time ≡ d.first = ap (λ x. x.start_time) t in
      let v : c.severity ≡ d.severity = ap (λ x. x.severity) t in
      let ((a, ma, fa), (b, mb, vb), le) = merge_all-Summarises (hits_of c.event_type) d q in
      let (p, k, g) = hits-Memᴰ c.event_type a ma in
      let (p', k', _) = hits-Memᴰ c.event_type b mb in
      (
        on,
        (p, a.severity, k, sym g ∙ fa ∙ sym f),
        (p', subst (Qualifies c.event_type p') (vb ∙ sym v) k'),
        λ r s w.
            let (x, y) =
              le (record { first = r.time; severity = s }) (Memᴰ-hits c.event_type r s w) in
            (rw f x, rw v y),
      )

  -- A type that is enabled has a candidate as soon as one point qualifies.
  pub detect_events_complete :
      (e : EventType) (p : Point time fl) (s : Severity)
      → is_notify_enabled time fl e config ≡ true
      → Qualifies e p s
      → (c : EventCandidate) × Memᴰ c (detect_events time fl points now config) × (c.event_type ≡ e)
  unfolding detect_events
  detect_events_complete e p s on q =
      let (d, f) =
        merge_all_found (hits_of e) (record { first = p.time; severity = s }) (Memᴰ-hits e p s q) in
      (
        candidate_from time e d,
        Memᴰ-filter_map (candidate_of time fl detections) e (filter is_enabled all_types)
            (Memᴰ-filter is_enabled e all_types (Memᴰ-all_types e) on)
            (candidate_of-some detections e d (slot_eq e ∙ f)),
        refl,
      )

  -- Two candidates of one forecast that have the same type are the same.
  pub detect_events-one_each :
      (c c' : EventCandidate)
      → Memᴰ c (detect_events time fl points now config)
      → Memᴰ c' (detect_events time fl points now config)
      → c.event_type ≡ c'.event_type
      → c ≡ c'
  detect_events-one_each c c' m m' same =
      let (_, (d, q, t)) = detect_events-found c m in
      let (_, (d', q', t')) = detect_events-found c' m' in
      let eq : d ≡ d' =
        some-injective d d' (sym q ∙ ap (λ e. merge_all none (hits_of e)) same ∙ q') in
      t
      ∙ ap (λ e. candidate_from time e d) same
      ∙ ap (candidate_from time c'.event_type) eq
      ∙ sym t'
