-- ===== src/Weather/Controller/Replay.antt =====
-- src/weather/controller/mod.rs: what a device that connects is sent, and what a failed fetch does.
use awtrix_controller.Prelude.{
  ◌≡◌, refl, sym, ◌↔◌, ◌||◌, Bool, false, Option, none, some, List, map, Memᴰ, Memᴰ-map, map-Memᴰ,
  ok, arith, Bool-cases, inl, inr,
}
use mathlib.Core.Path.{subst}
use mathlib.Core.Option.{some-injective, none-ne-some}
use awtrix_controller.Prelude.Int.{◌<ℤ◌, leb_ℤ}
use awtrix_controller.Prelude.Text.{Text, bytes}
use awtrix_controller.Instants.{Timestamp, Instants, Floats}
use awtrix_controller.State.{put, checked_ok}
use awtrix_controller.Config.Timezone.{Zones}
use awtrix_controller.Weather.EventType.{EventCandidate}
use awtrix_controller.Weather.Controller.{
  NotifiedForecast, Request, publish, fetch_error, elapsed, Self, minutes, notification, poll,
  replay, publish_to, on_device_connected,
}
use awtrix_controller.Weather.Controller.Equations.{change, apply_overlay_ok, fetch_failed_ok}

module _ (time : Instants) (fl : Floats) (z : Zones) (c : Self time fl z) where
  -- Younger than the repeat interval, of a forecast younger than its time to live.
  abbrev pub IsFresh : Timestamp → NotifiedForecast → Type 0
  IsFresh now cached =
      (time.duration_since now cached.notified_at
        <ℤ minutes time fl z c.config.notification_repeat_minutes)
      × (time.duration_since now cached.fetched_at
          <ℤ minutes time fl z c.config.data_stale_ttl_minutes)

  -- Why a request is one for a device that connects: it publishes a candidate of a fresh batch.
  abbrev pub IsReplay : Text → Timestamp → Option NotifiedForecast → Request → Type 0
  IsReplay client_id now o r =
      (cached : NotifiedForecast) × (o ≡ some cached)
      × IsFresh now cached
      × ((d : EventCandidate) × Memᴰ d cached.candidates
          × (r ≡ publish client_id (notification time fl z c d)))

  replay_iff :
      (client_id : Text) (now : Timestamp) (o : Option NotifiedForecast) (r : Request)
      → Memᴰ r (replay time fl z c client_id now o) ↔ IsReplay client_id now o r
  unfolding replay
  replay_iff client_id now none r = (λ m. elim m [ ], λ (x, e, _, _). absurd (none-ne-some x e))
  replay_iff client_id now (some cached) r = elim (Bool-cases is_stale) [
    | inl stale ↦
        rw (stale, replay)
          (
            λ m. elim m [ ],
            λ (x, e, f, _).
                let fresh : IsFresh now cached =
                  subst (IsFresh now) (sym (some-injective cached x e)) f in
                absurd (ground (arith, stale, fresh)),
          )
    | inr fresh ↦
        rw (fresh, replay)
          (
            λ m.
                let (d, n, e) = map-Memᴰ (publish_to time fl z c client_id) r cached.candidates m in
                (cached, refl, (ground (arith, fresh), ground (arith, fresh)), (d, n, e)),
            λ (x, e, _, (d, n, q)).
                let m : Memᴰ d cached.candidates =
                  subst (λ y. Memᴰ d y.candidates) (sym (some-injective cached x e)) n in
                subst (λ y. Memᴰ y (map (publish_to time fl z c client_id) cached.candidates))
                  (sym q) (Memᴰ-map (publish_to time fl z c client_id) d cached.candidates m),
          )
  ]
    where
      is_stale : Bool
      is_stale =
          leb_ℤ (minutes time fl z c.config.notification_repeat_minutes)
            (time.duration_since now cached.notified_at)
          || leb_ℤ (minutes time fl z c.config.data_stale_ttl_minutes)
              (time.duration_since now cached.fetched_at)

  on_device_connected_ok :
      (client_id : Text) (now : Timestamp)
      → c.memory.is_poisoned ≡ false
      → on_device_connected time fl z c client_id now ≡ record {
        result = ok tt;
        after = c;
        requests = replay time fl z c client_id now c.memory.value.last_notified;
      }
  unfolding on_device_connected
  on_device_connected_ok client_id now h =
      rw (checked_ok c.memory (bytes "weather notification cache") h, on_device_connected) refl

  -- A device that connects while the cache is not poisoned is sent exactly the notifications of the
  -- candidates of the cached batch, if there is one, it was published less than the repeat interval
  -- ago, and its forecast was fetched less than the time to live ago.
  pub on_device_connected_iff :
      (client_id : Text) (now : Timestamp) (r : Request)
      → c.memory.is_poisoned ≡ false
      → Memᴰ r (on_device_connected time fl z c client_id now).requests
        ↔ IsReplay client_id now c.memory.value.last_notified r
  on_device_connected_iff client_id now r h =
      rw (on_device_connected_ok client_id now h)
        (replay_iff client_id now c.memory.value.last_notified r)

  -- With neither lock poisoned, a fetch that fails or times out leaves no overlay, and sends a
  -- change to none if there was one and nothing else; the event states and the cached batch stay,
  -- and the poll succeeds.
  pub poll_failed :
      (connected : EventCandidate → List Text) (fetch_start now : Timestamp)
      → c.memory.is_poisoned ≡ false
      → c.states.is_poisoned ≡ false
      → let o = poll time fl z c connected fetch_start now fetch_error in
        (poll time fl z c connected fetch_start now elapsed ≡ o)
        × (o.result ≡ ok tt)
        × (o.after.memory.value.overlay ≡ none)
        × (o.requests ≡ change c.memory.value.overlay none)
        × (o.after.states ≡ c.states)
        × (o.after.memory.value.last_notified ≡ c.memory.value.last_notified)
  unfolding poll
  poll_failed connected t now h h' =
      let c' = record c { states = put c.states.value c.states } in
      rw (fetch_failed_ok time fl z c _ (checked_ok c.states (bytes "weather event state") h')) (
        rw
          (apply_overlay_ok time fl z c' none _
            (checked_ok c.memory (bytes "weather notification cache") h))
          (refl, refl, refl, refl, refl, refl))
