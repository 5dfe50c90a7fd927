-- ===== src/Weather/Controller/Cache.antt =====
-- src/weather/controller/mod.rs: the batch that a poll keeps.
use awtrix_controller.Prelude.{
  ◌≡◌, ◌≢◌, refl, ap, ◌∙◌, ◌⊎◌, inl, inr, not, Bool, true, false, Option, none, some, List, [], ◌∷◌,
  ◌++◌, if◌then◌else◌,
}
use awtrix_controller.Prelude.Text.{Text, bytes}
use awtrix_controller.Instants.{Timestamp, Instants, Floats}
use awtrix_controller.State.{Lock, put, checked_cases}
use awtrix_controller.Config.Timezone.{Zones}
use awtrix_controller.Model.Enums.{OverlayEffect, same_overlay}
use awtrix_controller.Model.Payload.{Notification}
use awtrix_controller.Weather.EventType.{EventCandidate}
use awtrix_controller.Weather.Events.{Point}
use awtrix_controller.Weather.Mapping.{select_overlay}
use awtrix_controller.Weather.State.{StateManager}
use awtrix_controller.Weather.Controller.Equations.{
  apply_overlay_err, apply_overlay_ok, fetch_failed_err, fetch_failed_ok,
}
use awtrix_controller.Weather.Controller.{
  Memory, NotifiedForecast, Request, set_overlay, publish, Fetched, points, cancelled, fetch_error,
  elapsed, Self, publish_candidate, publish_all, fetch_failed, notify, detect, and_then, poll,
  notification, local_time,
}

-- The notifications among some requests.
unfoldable pub sent : List Request → List (Text × Notification)
sent [] = []
sent (set_overlay _ ∷ rs) = sent rs
sent (publish client_id n ∷ rs) = (client_id, n) ∷ sent rs

sent_change :
    (b : Bool) (o : Option OverlayEffect) (rs : List Request)
    → sent ((if b then set_overlay o ∷ [] else []) ++ rs) ≡ sent rs
unfolding sent
sent_change true o rs = refl
sent_change false o rs = refl

sent_only : (b : Bool) (o : Option OverlayEffect) → sent (if b then set_overlay o ∷ [] else []) ≡ []
unfolding sent
sent_only true o = refl
sent_only false o = refl

module _ (time : Instants) (fl : Floats) (z : Zones) where
  -- What is published does not depend on the states and the memory.
  publish_all_same :
      (c : Self time fl z) (s : Lock StateManager) (m : Lock Memory)
      (connected : EventCandidate → List Text) (cs : List EventCandidate)
      → publish_all time fl z (record c { states = s; memory = m }) connected cs
        ≡ publish_all time fl z c connected cs
  unfolding publish_all notification local_time
  publish_all_same c s m connected [] = refl
  publish_all_same c s m connected (d ∷ ds) =
      ap (λ rs. publish_candidate time fl z c (connected d) d ++ rs)
        (publish_all_same c s m connected ds)

  abbrev kept : Self time fl z → Option NotifiedForecast
  kept c = c.memory.value.last_notified

  -- Nothing is published and the batch is kept, or a new batch is published and takes its place.
  abbrev pub Batches :
      Self time fl z
      → (EventCandidate → List Text)
      → Timestamp
      → Timestamp
      → List Request
      → Self time fl z
      → Type 0
  Batches c connected t now requests after =
      ((sent requests ≡ []) × (after.memory.value.last_notified ≡ c.memory.value.last_notified))
      ⊎ ((cs : List EventCandidate) × (cs ≢ [])
          × (sent requests ≡ sent (publish_all time fl z c connected cs))
          × (after.memory.value.last_notified
              ≡ some (record { candidates = cs; notified_at = now; fetched_at = t })))

  notify-Batches :
      (c : Self time fl z) (connected : EventCandidate → List Text) (t now : Timestamp)
      (cs : List EventCandidate)
      → let o = notify time fl z c connected t now cs in
        Batches c connected t now o.requests o.after
  unfolding notify sent
  notify-Batches c connected t now [] = inl (refl, refl)
  notify-Batches c connected t now (d ∷ ds) =
      elim (checked_cases c.memory (bytes "weather notification cache")) [
        | inl e ↦ rw (e, notify) (inl (refl, refl))
        | inr e ↦ rw (e, notify) (inr (d ∷ ds, λ q. cc, refl, refl))
      ]

  -- The same of the controller with other states and another memory that keeps the same batch.
  Batches-before :
      (c : Self time fl z) (s : Lock StateManager) (m : Lock Memory)
      (connected : EventCandidate → List Text) (t now : Timestamp) (rs : List Request)
      (after : Self time fl z)
      → m.value.last_notified ≡ c.memory.value.last_notified
      → Batches (record c { states = s; memory = m }) connected t now rs after
      → Batches c connected t now rs after
  Batches-before c s m connected t now rs after h (inl (e, k)) = inl (e, k ∙ h)
  Batches-before c s m connected t now rs after h (inr (cs, n, e, k)) =
      inr (cs, n, e ∙ ap sent (publish_all_same c s m connected cs), k)

  notify-Batches-before :
      (c : Self time fl z) (s : Lock StateManager) (m : Lock Memory)
      (connected : EventCandidate → List Text) (t now : Timestamp) (cs : List EventCandidate)
      → m.value.last_notified ≡ c.memory.value.last_notified
      → let o = notify time fl z (record c { states = s; memory = m }) connected t now cs in
        Batches c connected t now o.requests o.after
  notify-Batches-before c s m connected t now cs h =
      let o = notify time fl z (record c { states = s; memory = m }) connected t now cs in
      Batches-before c s m connected t now o.requests o.after h
        (notify-Batches (record c { states = s; memory = m }) connected t now cs)

  detect-Batches :
      (c : Self time fl z) (m : Lock Memory) (connected : EventCandidate → List Text)
      (t now : Timestamp) (ps : List (Point time fl))
      → m.value.last_notified ≡ c.memory.value.last_notified
      → let o = detect time fl z (record c { memory = m }) connected t now ps in
        Batches c connected t now o.requests o.after
  unfolding detect sent
  detect-Batches c m connected t now ps h =
      elim (checked_cases c.states (bytes "weather event state")) [
        | inl e ↦ rw (e, detect) (inl (refl, h))
        | inr e ↦ rw (e, detect) (notify-Batches-before c _ m connected t now _ h)
      ]

  -- Requests that start with a change of the overlay send what the rest sends.
  Batches-change :
      (c : Self time fl z) (connected : EventCandidate → List Text) (t now : Timestamp) (b : Bool)
      (o : Option OverlayEffect) (rs : List Request) (after : Self time fl z)
      → Batches c connected t now rs after
      → Batches c connected t now ((if b then set_overlay o ∷ [] else []) ++ rs) after
  Batches-change c connected t now b o rs after (inl (e, k)) = inl (sent_change b o rs ∙ e, k)
  Batches-change c connected t now b o rs after (inr (cs, n, e, k)) =
      inr (cs, n, sent_change b o rs ∙ e, k)

  fetch_failed-Batches :
      (c : Self time fl z) (connected : EventCandidate → List Text) (t now : Timestamp)
      → let o = fetch_failed time fl z c in Batches c connected t now o.requests o.after
  unfolding sent
  fetch_failed-Batches c connected t now =
      elim (checked_cases c.states (bytes "weather event state")) [
        | inl e ↦ rw (fetch_failed_err time fl z c _ e) (inl (refl, refl))
        | inr e ↦
            let c' = record c { states = put c.states.value c.states } in
            rw (fetch_failed_ok time fl z c _ e)
              (elim (checked_cases c.memory (bytes "weather notification cache")) [
                | inl e' ↦ rw (apply_overlay_err time fl z c' none _ e') (inl (refl, refl))
                | inr e' ↦
                    rw (apply_overlay_ok time fl z c' none _ e')
                      (inl (sent_only (not (same_overlay c.memory.value.overlay none)) none, refl))
              ])
      ]

  abbrev selected : Self time fl z → Timestamp → List (Point time fl) → Option OverlayEffect
  selected c now ps = select_overlay time ps now c.config.overlay_horizon_minutes

  -- Whatever a poll comes to, it either publishes nothing and keeps the batch of before, or it
  -- publishes a batch of at least one candidate to the devices connected and keeps that batch, with
  -- the time of its forecast and its own.
  pub poll-last_notified :
      (c : Self time fl z) (connected : EventCandidate → List Text) (fetch_start now : Timestamp)
      (fetched : Fetched (Point time fl))
      → let o = poll time fl z c connected fetch_start now fetched in
        Batches c connected fetch_start now o.requests o.after
  unfolding poll sent and_then
  poll-last_notified c connected t now cancelled = inl (refl, refl)
  poll-last_notified c connected t now fetch_error = fetch_failed-Batches c connected t now
  poll-last_notified c connected t now elapsed = fetch_failed-Batches c connected t now
  poll-last_notified c connected t now (points ps) =
      elim (checked_cases c.memory (bytes "weather notification cache")) [
        | inl e ↦ rw (apply_overlay_err time fl z c (selected c now ps) _ e) (inl (refl, refl))
        | inr e ↦
            let new_overlay = selected c now ps in
            let m = put (record c.memory.value { overlay = new_overlay }) c.memory in
            let rest = detect time fl z (record c { memory = m }) connected t now ps in
            rw (apply_overlay_ok time fl z c new_overlay _ e) (
              Batches-change c connected t now
                (not (same_overlay c.memory.value.overlay new_overlay)) new_overlay rest.requests
                rest.after (detect-Batches c m connected t now ps refl))
      ]
