-- ===== src/Run/Loop/Exits.antt =====
-- src/run/mod.rs: how the main loop ends.
use awtrix_controller.Prelude.{
  ◌≡◌, refl, ◌∙◌, ◌∷◌, ◌++◌, inl, inr, true, false, Option, none, some, List, [], arith, Result,
  Option-cases, is_some,
}
use awtrix_controller.Prelude.Text.{Text}
use awtrix_controller.Instants.{Instants, Floats}
use awtrix_controller.Config.Timezone.{Zones}
use awtrix_controller.State
use awtrix_controller.State.{StateError}
use awtrix_controller.Model.Settings as Payload
use awtrix_controller.Model.Payload.{Notification}
use awtrix_controller.Weather.Controller.{Self}
use awtrix_controller.Run.Devices.{Devices, Publish, report}
use awtrix_controller.Run.Loop.{
  Event, Moment, seen, Happening, stop_requested, queued, reported, Ended, handle, ended, main_loop,
}

-- What reaches the loop has in it a stop or an error that is reported.
pub data HasEnd {Weather : Type 0} : List (Happening Weather) → Type 0 where
  stops : (hs : List (Happening Weather)) → HasEnd (stop_requested ∷ hs)
  fails : (e : StateError) (hs : List (Happening Weather)) → HasEnd (reported e ∷ hs)
  after : (h : Happening Weather) (hs : List (Happening Weather)) → HasEnd hs → HasEnd (h ∷ hs)

-- The exit of a loop that ended tells whether a failure is recorded.
TellsFailure : Option Ended → Type 0
TellsFailure none = Unit
TellsFailure (some r) = r.failed ≡ is_some r.devices.failures.first

report-fresh :
    (d : Devices) (e : StateError) → d.failures.first ≡ none → (report e d).failures.first ≡ some e
unfolding State.report
report-fresh d e h = ground arith

module _ (JsonError PublishError : Type 0)
    (settings_json : Payload.Settings → Result JsonError Text)
    (notification_json : Notification → Result JsonError Text)
    (broker_publish : Publish → Result PublishError (Unit {0})) (time : Instants) (fl : Floats)
    (zones : Zones) (test : Option Notification) where
  abbrev What : Type 0
  What = Happening (Self time fl zones)

  abbrev loop : Devices → List Publish → List What → Option Ended
  loop =
      main_loop JsonError PublishError settings_json notification_json broker_publish time fl zones
        test

  abbrev handled : Devices → Event → Moment (Self time fl zones) → Devices × List Publish
  handled d event m =
      handle JsonError PublishError settings_json notification_json broker_publish time fl zones
        (seen d m) m.weather test event m.mode m.saving m.now

  -- A failure that is recorded ends the loop whatever waits in the queue.
  pub main_loop-failed :
      (d : Devices) (e : StateError) (sent : List Publish) (hs : List What)
      → d.failures.first ≡ some e
      → loop d sent hs ≡ ended true d sent
  unfolding main_loop State.failed
  main_loop-failed d e sent [] h = ground arith
  main_loop-failed d e sent (stop_requested ∷ hs) h = ground arith
  main_loop-failed d e sent (reported x ∷ hs) h = ground arith
  main_loop-failed d e sent (queued event m ∷ hs) h = ground arith

  -- A handler's devices and what it had sent, and the rest of the loop.
  abbrev rest_of : List Publish → List What → Devices × List Publish → Option Ended
  rest_of sent hs (d, more) = loop d (sent ++ more) hs

  -- While no failure is recorded, the loop handles what comes first.
  pub main_loop-next :
      (d : Devices) (sent : List Publish) (h : What) (hs : List What)
      → d.failures.first ≡ none
      → loop d sent (h ∷ hs) ≡ elim h [
        | stop_requested ↦ ended false d sent
        | reported e ↦ loop (report e d) sent hs
        | queued event m ↦ rest_of sent hs (handled d event m)
      ]
  unfolding main_loop State.failed
  main_loop-next d sent stop_requested hs none_yet = ground arith
  main_loop-next d sent (reported x) hs none_yet = ground arith
  main_loop-next d sent (queued event m) hs none_yet = ground arith

  -- A failure first, and otherwise the next step: how a property of the loop is split.
  by_failure :
      (P : Option Ended → Type 0) (d : Devices) (sent : List Publish) (hs : List What)
      → ((e : StateError) → d.failures.first ≡ some e → P (ended true d sent))
      → (d.failures.first ≡ none → P (loop d sent hs))
      → P (loop d sent hs)
  by_failure P d sent hs failure goes_on = elim (Option-cases d.failures.first) [
    | inr (e, h) ↦ rw (main_loop-failed d e sent hs h) (failure e h)
    | inl h ↦ goes_on h
  ]

  tells_rest :
      (sent : List Publish) (hs : List What) (x : Devices × List Publish)
      → ((d : Devices) (sent' : List Publish) → TellsFailure (loop d sent' hs))
      → TellsFailure (rest_of sent hs x)
  tells_rest sent hs (d, more) rule = rule d (sent ++ more)

  tells : (hs : List What) (d : Devices) (sent : List Publish) → TellsFailure (loop d sent hs)
  unfolding TellsFailure main_loop State.failed
  tells [] d sent = by_failure TellsFailure d sent [] (λ e h. rw h refl) (λ h. rw (h, main_loop) tt)
  tells (stop_requested ∷ hs) d sent =
      by_failure TellsFailure d sent (stop_requested ∷ hs) (λ e h. rw h refl)
        (λ h. rw (main_loop-next d sent stop_requested hs h) (rw h refl))
  tells (reported e ∷ hs) d sent =
      by_failure TellsFailure d sent (reported e ∷ hs) (λ x h. rw h refl)
        (λ h. rw (main_loop-next d sent (reported e) hs h) (tells hs (report e d) sent))
  tells (queued event m ∷ hs) d sent =
      by_failure TellsFailure d sent (queued event m ∷ hs) (λ x h. rw h refl)
        (λ h.
          rw (main_loop-next d sent (queued event m) hs h)
            (tells_rest sent hs (handled d event m) (tells hs)))

  HasEnded : Option Ended → Type 0
  HasEnded o = (r : Ended) × (o ≡ some r)

  ended_rest :
      (sent : List Publish) (hs : List What) (x : Devices × List Publish)
      → ((d : Devices) (sent' : List Publish) → HasEnded (loop d sent' hs))
      → HasEnded (rest_of sent hs x)
  ended_rest sent hs (d, more) rule = rule d (sent ++ more)

  stops_ended :
      (hs : List What) (d : Devices) (sent : List Publish)
      → HasEnded (loop d sent (stop_requested ∷ hs))
  unfolding HasEnded
  stops_ended hs d sent =
      by_failure HasEnded d sent (stop_requested ∷ hs) (λ e h. (_, refl))
        (λ h. (_, main_loop-next d sent stop_requested hs h))

  fails_ended :
      (e : StateError) (hs : List What) (d : Devices) (sent : List Publish)
      → HasEnded (loop d sent (reported e ∷ hs))
  unfolding HasEnded
  fails_ended e hs d sent =
      by_failure HasEnded d sent (reported e ∷ hs) (λ x h. (_, refl))
        (λ h. (
          _,
          main_loop-next d sent (reported e) hs h
              ∙ main_loop-failed (report e d) e sent hs (report-fresh d e h),
        ))

  has_ended :
      (hs : List What) → HasEnd hs → (d : Devices) (sent : List Publish) → HasEnded (loop d sent hs)
  unfolding HasEnded
  has_ended _ (stops hs) d sent = stops_ended hs d sent
  has_ended _ (fails e hs) d sent = fails_ended e hs d sent
  has_ended _ (after stop_requested hs end) d sent = stops_ended hs d sent
  has_ended _ (after (reported e) hs end) d sent = fails_ended e hs d sent
  has_ended _ (after (queued event m) hs end) d sent =
      by_failure HasEnded d sent (queued event m ∷ hs) (λ x h. (_, refl))
        (λ h.
          rw (main_loop-next d sent (queued event m) hs h)
            (ended_rest sent hs (handled d event m) (has_ended hs end)))

  -- When the main loop ends, it ended with a failure if and only if one is recorded in what it leaves:
  -- a stop ends it cleanly only while no failure is recorded.
  pub main_loop-outcome :
      (hs : List What) (d : Devices) (sent : List Publish) (r : Ended)
      → main_loop JsonError PublishError settings_json notification_json broker_publish time fl
          zones test d sent hs
        ≡ some r
      → r.failed ≡ is_some r.devices.failures.first
  unfolding TellsFailure
  main_loop-outcome hs d sent r eq =
      let h : TellsFailure (loop d sent hs) = tells hs d sent in rw eq at h

  -- The main loop ends whenever a stop is among what reaches it or a callback reports an error,
  -- whatever the handlers before that do.
  pub main_loop-ends :
      (hs : List What)
      → HasEnd hs
      → (d : Devices) (sent : List Publish)
      → (r : Ended) × (main_loop JsonError PublishError settings_json notification_json
            broker_publish time fl zones test d sent hs
          ≡ some r)
  unfolding HasEnded
  main_loop-ends hs end d sent = has_ended hs end d sent
