-- ===== src/Tests/Devices.antt =====
-- Runs of the hook, the registry and the failure record.
use awtrix_controller.Prelude.{
  ◌≡◌, ◌≢◌, ◌↔◌, ◌≤◌, refl, true, false, Option, none, some, List, [], ◌∷◌, ◌++◌, map, ok, err,
  is_some,
}
use awtrix_controller.Prelude.Text.{Text, bytes, same}
use awtrix_controller.Model.Stats
use awtrix_controller.Model.Stats.{Stats}
use awtrix_controller.State.{poisoned}
use awtrix_controller.Prelude.Dict.{insert, lookup, erase}
use awtrix_controller.ClientState.Laws.{view, methods-update}
use awtrix_controller.ClientState
use awtrix_controller.Broker.Hook
use awtrix_controller.Broker.Hook.{Parameter, RmqttId}
use awtrix_controller.Broker.Hook.Run.{event, poison_connections, run, advance}
use awtrix_controller.Broker.Hook.Equations.{IsSound, session_of}
use awtrix_controller.Broker.Hook.Agreement.{run-Agrees}
use awtrix_controller.Broker.Hook.Ready.{ready-le-connected, readies, arrivals}
use awtrix_controller.Broker.Hook.Failure.{failure_final}
use awtrix_controller.Broker.Hook.Auth.{authenticate_verdicts}
use awtrix_controller.Tests.Samples.{matrix, matrix_again, open_hook, poisoned_hook}

abbrev no_stats : Text → Option Stats
no_stats _ = none

abbrev as_is : Text → Text
as_is t = t

sound : IsSound open_hook
sound = record { connections_free = refl; registry_free = refl }

abbrev reconnection : List Parameter
reconnection =
    Hook.client_connected matrix
    ∷ Hook.client_connected matrix_again
    ∷ Hook.client_disconnected matrix
    ∷ []

-- The disconnect of the session that was taken over leaves the device registered.
run-Agrees_example :
    let h =
      run no_stats as_is
        (map event reconnection)
        (Hook.new (bytes "user") (bytes "secret") ClientState.new false) in
    is_some (session_of h (bytes "matrix")) ≡ is_some (view h.registry (bytes "matrix"))
run-Agrees_example =
    run-Agrees no_stats as_is (bytes "user") (bytes "secret") reconnection (bytes "matrix")

still_registered :
    is_some (
      session_of
        (run no_stats as_is
          (map event reconnection)
          (Hook.new (bytes "user") (bytes "secret") ClientState.new false))
        (bytes "matrix"))
    ≡ true
unfolding run advance Hook.hook Hook.connected Hook.disconnected Hook.new ClientState.new
    ClientState.register ClientState.unregister insert lookup erase same Hook.same_session
still_registered = refl

ready-le-connected_example :
    let h =
      run no_stats as_is
        (event (Hook.client_connected matrix)
          ∷ event (Hook.message_publish matrix (bytes "matrix/stats") [])
          ∷ event (Hook.message_publish matrix (bytes "matrix/stats") [])
          ∷ poison_connections
          ∷ [])
        (Hook.new (bytes "user") (bytes "secret") ClientState.new false) in
    readies (bytes "matrix") h.called ≤ arrivals (bytes "matrix") h.called
ready-le-connected_example =
    ready-le-connected no_stats as_is (bytes "matrix") (bytes "user") (bytes "secret")
      ClientState.new false
      (event (Hook.client_connected matrix)
        ∷ event (Hook.message_publish matrix (bytes "matrix/stats") [])
        ∷ event (Hook.message_publish matrix (bytes "matrix/stats") [])
        ∷ poison_connections
        ∷ [])

connection_fails :
    (Hook.handle no_stats as_is (Hook.client_connected matrix) poisoned_hook).0
    ≡ err (poisoned (bytes "broker connections"))
unfolding Hook.connected
connection_fails = refl

failure_final_example :
    let failed = (Hook.handle no_stats as_is (Hook.client_connected matrix) poisoned_hook).1 in
    let h' = (Hook.hook no_stats as_is (Hook.client_connected matrix) none poisoned_hook).2 in
    (h'.called ≡ failed.called ++ Hook.on_state_error (poisoned (bytes "broker connections")) ∷ [])
    × (run no_stats as_is (map event reconnection) h' ≡ h')
    × (Hook.authenticate h' (some (bytes "user")) (some (bytes "secret")) ≡ Hook.not_authorized)
failure_final_example =
    failure_final no_stats as_is (Hook.client_connected matrix) poisoned_hook
      (poisoned (bytes "broker connections")) reconnection (some (bytes "user"))
      (some (bytes "secret")) refl connection_fails

authenticate_verdicts_example :
    let verdict = Hook.authenticate open_hook (some (bytes "user")) (some (bytes "secret")) in
    ((verdict ≡ Hook.allow) ↔ (
      (false ≡ false)
      × (some (bytes "user") ≡ some (bytes "user"))
      × (some (bytes "secret") ≡ some (bytes "secret"))))
    × ((verdict ≡ Hook.not_authorized) ↔ (false ≡ true))
    × (verdict ≢ Hook.not_found)
authenticate_verdicts_example =
    authenticate_verdicts open_hook (some (bytes "user")) (some (bytes "secret"))

methods-update_example :
    let r = open_hook.registry in
    (ClientState.snapshot r (bytes "matrix") ≡ ok (view r (bytes "matrix")))
    × (let (res, r') = ClientState.register r (bytes "matrix") in
        (res ≡ ok tt)
        × (r'.clients.is_poisoned ≡ false)
        × (view r' (bytes "matrix") ≡ some ClientState.default))
    × (let (res, r') = ClientState.unregister r (bytes "matrix") in
        (res ≡ ok tt) × (r'.clients.is_poisoned ≡ false) × (view r' (bytes "matrix") ≡ none))
    × (let (res, r') = ClientState.update_stats r (bytes "matrix") Stats.default in
        (res ≡ ok tt) × (r'.clients.is_poisoned ≡ false) × (view r' (bytes "matrix") ≡ none))
    × (let (res, r') = ClientState.update_current_app r (bytes "matrix") [] in
        (res ≡ ok tt) × (r'.clients.is_poisoned ≡ false) × (view r' (bytes "matrix") ≡ none))
unfolding same lookup
methods-update_example =
    methods-update open_hook.registry (bytes "matrix") (bytes "matrix") Stats.default [] refl
