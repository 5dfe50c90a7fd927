-- ===== src/Broker/Hook/Failure.antt =====
-- src/broker/hook.rs: a poisoned lock shuts the hook, and a shut hook does nothing more.
use awtrix_controller.Prelude.{
  ◌≡◌, refl, ap, ◌∙◌, Result, true, false, Option, none, List, [], ◌∷◌, ◌++◌, map, arith, ok, err,
}
use awtrix_controller.Prelude.Text.{Text, bytes}
use awtrix_controller.Model.Stats.{Stats}
use awtrix_controller.State.{StateError, poisoned}
use awtrix_controller.Broker.Hook.{
  RmqttId, ControllerHook, on_state_error, authenticate, not_authorized, connected, disconnected,
  mark_ready, state_failed, Parameter, client_authenticate, client_connected, client_disconnected,
  message_publish, other, HookResult, hook, handle, settle,
}
use awtrix_controller.Broker.Hook.Run.{event, advance, run}

-- With the session table poisoned no event reads or changes it: connections, disconnections and the
-- readiness of a device all fail with the table's name, and leave the hook as it was.
pub poisoned_table_fails :
    (id : RmqttId) (h : ControllerHook)
    → h.connections.is_poisoned ≡ true
    → let e = poisoned (bytes "broker connections") in
      (connected id h ≡ (err e, h))
      × (disconnected id h ≡ (err e, h))
      × (mark_ready id h ≡ (err e, h))
unfolding connected disconnected mark_ready
poisoned_table_fails id h bad = (ground arith, ground arith, ground arith)

settle-err :
    (x : Result StateError (Unit {0}) × ControllerHook) (e : StateError)
    → x.0 ≡ err e
    → settle x ≡ state_failed e x.1
settle-err (ok _, h) e eq = cc
settle-err (err d, h) e eq = cc

module _ (from_json : Text → Option Stats) (from_utf8_lossy : Text → Text) where
  closed_ignores :
      (p : Parameter) (accumulated : Option HookResult) (h : ControllerHook)
      → h.closing ≡ true
      → (hook from_json from_utf8_lossy p accumulated h).2 ≡ h
  unfolding hook
  closed_ignores (client_authenticate u w) accumulated h c = refl
  closed_ignores (client_connected id) accumulated h c = rw c
  closed_ignores (client_disconnected id) accumulated h c = rw c
  closed_ignores (message_publish id topic payload) accumulated h c = rw c
  closed_ignores other accumulated h c = rw c

  closed_stays :
      (ps : List Parameter) (h : ControllerHook)
      → h.closing ≡ true
      → run from_json from_utf8_lossy (map event ps) h ≡ h
  unfolding run advance
  closed_stays [] h c = refl
  closed_stays (p ∷ ps) h c =
      ap (run from_json from_utf8_lossy (map event ps)) (closed_ignores p none h c)
      ∙ closed_stays ps h c

  open_settles :
      (p : Parameter) (h : ControllerHook)
      → h.closing ≡ false
      → (hook from_json from_utf8_lossy p none h).2 ≡ settle (handle from_json from_utf8_lossy p h)
  unfolding hook
  open_settles (client_authenticate u w) h o = refl
  open_settles (client_connected id) h o = rw o
  open_settles (client_disconnected id) h o = rw o
  open_settles (message_publish id topic payload) h o = rw o
  open_settles other h o = rw o

  -- When an open hook fails at an event, it reports the error to the controller after whatever it had
  -- already called back, and from then on no event of any kind changes it, and every
  -- authentication is refused.
  pub failure_final :
      (p : Parameter) (h : ControllerHook) (e : StateError) (ps : List Parameter)
      (username password : Option Text)
      → h.closing ≡ false
      → (handle from_json from_utf8_lossy p h).0 ≡ err e
      → let failed = (handle from_json from_utf8_lossy p h).1 in
        let h' = (hook from_json from_utf8_lossy p none h).2 in
        (h'.called ≡ failed.called ++ on_state_error e ∷ [])
        × (run from_json from_utf8_lossy (map event ps) h' ≡ h')
        × (authenticate h' username password ≡ not_authorized)
  unfolding state_failed authenticate
  failure_final p h e ps u w opened bad =
      let s = open_settles p h opened ∙ settle-err (handle from_json from_utf8_lossy p h) e bad in
      rw s
        (refl, closed_stays ps (state_failed e (handle from_json from_utf8_lossy p h).1) refl, refl)
