-- ===== src/Broker/Hook/Ready.antt =====
-- src/broker/hook.rs: a device is reported ready at most once for each connection reported.
use awtrix_controller.Prelude.{
  ℕ, ◌+◌, ◌≤◌, ◌≡◌, Bool, true, false, Option, none, some, List, [], ◌∷◌, ◌++◌, arith, Bool-cases,
  Option-cases, inl, inr, if◌then◌else◌, ok, err, Result,
}
use awtrix_controller.Prelude.Text.{Text, bytes, same, same_iff}
use awtrix_controller.Prelude.Dict.{lookup-insert, lookup-erase, lookup-nil}
use awtrix_controller.Model.Stats.{Stats}
use awtrix_controller.State.{StateError, poisoned}
use awtrix_controller.ClientState.{Registry, register, unregister, update_stats, update_current_app}
use awtrix_controller.Broker.Hook.{
  RmqttId, of, Connection, ControllerHook, Callback, on_connected, on_device_ready, on_state_error,
  connected, disconnected, publish_stats, published, new, state_failed, ends_with, Parameter,
  client_authenticate, client_connected, client_disconnected, message_publish, other, handle,
  settle, report_ready, on_registry, store_stats, Action, ◌>>◌,
}
use awtrix_controller.Broker.Hook.Equations.{session_of, hook_rule}
use awtrix_controller.Broker.Hook.Run.{
  Happening, event, poison_connections, poison_registry, close, advance, run,
}

-- 1 where the callback reports the client ready, or connected.
abbrev readiness : Text → Callback → ℕ
readiness c (on_device_ready d) = if same d c then 1 else 0
readiness c _ = 0

abbrev arrival : Text → Callback → ℕ
arrival c (on_connected d) = if same d c then 1 else 0
arrival c _ = 0

-- How often the callbacks made so far report the client ready, and connected.
pub readies : Text → List Callback → ℕ
readies c [] = 0
readies c (x ∷ xs) = readiness c x + readies c xs

pub arrivals : Text → List Callback → ℕ
arrivals c [] = 0
arrivals c (x ∷ xs) = arrival c x + arrivals c xs

readies-append_one :
    (c : Text) (xs : List Callback) (x : Callback)
    → readies c (xs ++ x ∷ []) ≡ readies c xs + readiness c x
unfolding readies
readies-append_one c [] x = omega arith
readies-append_one c (y ∷ xs) x = omega (arith, readies-append_one c xs x)

arrivals-append_one :
    (c : Text) (xs : List Callback) (x : Callback)
    → arrivals c (xs ++ x ∷ []) ≡ arrivals c xs + arrival c x
unfolding arrivals
arrivals-append_one c [] x = omega arith
arrivals-append_one c (y ∷ xs) x = omega (arith, arrivals-append_one c xs x)

-- 1 for a current session that has not reported ready.
abbrev unready : Option Connection → ℕ
unready none = 0
unready (some k) = if k.ready then 0 else 1

-- A closing hook reports nobody any more.
abbrev pending : Text → ControllerHook → ℕ
pending c h = if h.closing then 0 else unready (session_of h c)

-- Each report of readiness, and each session that may still make one, has its connection.
abbrev IsCounted : Text → ControllerHook → Type 0
IsCounted c h = readies c h.called + pending c h ≤ arrivals c h.called

-- The two failures that the hook can meet.
abbrev table_failed : Callback
table_failed = on_state_error (poisoned (bytes "broker connections"))

abbrev registry_failed : Callback
registry_failed = on_state_error (poisoned (bytes "client registry"))

module _ (c : Text) (h : ControllerHook) (counted : IsCounted c h)
    (opened : h.closing ≡ false) where
  connected-IsCounted : (id : RmqttId) → IsCounted c (settle (connected id h))
  unfolding connected register state_failed
  connected-IsCounted id = ground (
    arith,
    readies-append_one c h.called table_failed,
    arrivals-append_one c h.called table_failed,
    readies-append_one c h.called registry_failed,
    arrivals-append_one c h.called registry_failed,
    readies-append_one c h.called (on_connected id.client_id),
    arrivals-append_one c h.called (on_connected id.client_id),
    lookup-insert id.client_id c (record { session = of id; ready = false }) h.connections.value,
  )

  disconnected-IsCounted : (id : RmqttId) → IsCounted c (settle (disconnected id h))
  unfolding disconnected unregister state_failed
  disconnected-IsCounted id = ground (
    arith,
    readies-append_one c h.called table_failed,
    arrivals-append_one c h.called table_failed,
    readies-append_one c h.called registry_failed,
    arrivals-append_one c h.called registry_failed,
    lookup-erase id.client_id c h.connections.value,
  )

  -- The stats, or the current app, go to the registry and leave sessions and callbacks alone.
  stored-IsCounted : (r : Registry) → IsCounted c (record h { registry = r })
  stored-IsCounted r = counted

module _ (c : Text) (h : ControllerHook) (counted : IsCounted c h)
    (opened : h.closing ≡ false) where
  ready-IsCounted : (id : RmqttId) → IsCounted c (settle (report_ready id h))
  unfolding report_ready state_failed
  ready-IsCounted id = elim (Option-cases (session_of h id.client_id)) [
    | inl e ↦ ground (
      arith,
      readies-append_one c h.called table_failed,
      arrivals-append_one c h.called table_failed,
    )
    | inr (k, e) ↦ ground (
      arith,
      same_iff id.client_id c,
      readies-append_one c h.called table_failed,
      arrivals-append_one c h.called table_failed,
      readies-append_one c h.called (on_device_ready id.client_id),
      arrivals-append_one c h.called (on_device_ready id.client_id),
      lookup-insert id.client_id c (record k { ready = true }) h.connections.value,
    )
  ]

failed-IsCounted :
    (c : Text) (e : StateError) (h : ControllerHook)
    → readies c h.called ≤ arrivals c h.called
    → IsCounted c (state_failed e h)
unfolding state_failed
failed-IsCounted c e h k = omega (
  arith,
  readies-append_one c h.called (on_state_error e),
  arrivals-append_one c h.called (on_state_error e),
)

-- A method of the registry, and what follows where it succeeds.
module _ (c : Text) (h : ControllerHook) (counted : IsCounted c h)
    (opened : h.closing ≡ false) where
  registry-IsCounted :
      (r : Result StateError (Unit {0})) (registry : Registry) (k : Action (Unit {0}))
      → IsCounted c (settle (k (record h { registry = registry })))
      → IsCounted c (settle ((on_registry (λ _. (r, registry)) >> k) h))
  registry-IsCounted (ok _) registry k next = next
  registry-IsCounted (err e) registry k next =
      failed-IsCounted c e (record h { registry = registry }) (omega arith)

  registry_alone-IsCounted :
      (r : Result StateError (Unit {0})) (registry : Registry)
      → IsCounted c (settle (on_registry (λ _. (r, registry)) h))
  registry_alone-IsCounted (ok _) registry = counted
  registry_alone-IsCounted (err e) registry =
      failed-IsCounted c e (record h { registry = registry }) (omega arith)

module _ (from_json : Text → Option Stats) (from_utf8_lossy : Text → Text) (c : Text) where
  publish_stats-IsCounted :
      (id : RmqttId) (payload : Text) (h : ControllerHook)
      → IsCounted c h
      → h.closing ≡ false
      → IsCounted c (settle (publish_stats from_json from_utf8_lossy id payload h))
  unfolding publish_stats
  publish_stats-IsCounted id payload h counted opened = go (from_json payload)
    where
      go :
          (o : Option Stats)
          → IsCounted c
              (settle ((store_stats from_json from_utf8_lossy id.client_id o >> report_ready id) h))
      go none = ready-IsCounted c h counted opened id
      go (some stats) =
          let (r, registry) = update_stats h.registry id.client_id stats in
          registry-IsCounted c h counted opened r registry (report_ready id)
            (ready-IsCounted c (record h { registry = registry }) counted opened id)

  published-IsCounted :
      (id : RmqttId) (topic payload : Text) (h : ControllerHook)
      → IsCounted c h
      → h.closing ≡ false
      → IsCounted c (settle (published from_json from_utf8_lossy id topic payload h))
  unfolding published
  published-IsCounted id topic payload h counted opened =
      elim (Bool-cases (ends_with topic (bytes "/stats"))) [
        | inl e ↦ rw e (publish_stats-IsCounted id payload h counted opened)
        | inr e ↦ rw e (elim (Bool-cases (ends_with topic (bytes "/stat/currentApp"))) [
          | inl e' ↦
              let (r, registry) =
                update_current_app h.registry id.client_id (from_utf8_lossy payload) in
              rw e' (registry_alone-IsCounted c h counted opened r registry)
          | inr e' ↦ rw e' counted
        ])
      ]

  advance-IsCounted :
      (e : Happening) (h : ControllerHook)
      → IsCounted c h
      → IsCounted c (advance from_json from_utf8_lossy e h)
  unfolding advance
  advance-IsCounted (event p) h k =
      hook_rule from_json from_utf8_lossy (IsCounted c) p none h k (handled p)
    where
      handled :
          (p : Parameter)
          → h.closing ≡ false
          → IsCounted c (settle (handle from_json from_utf8_lossy p h))
      handled (client_authenticate u w) o = k
      handled (client_connected id) o = connected-IsCounted c h k o id
      handled (client_disconnected id) o = disconnected-IsCounted c h k o id
      handled (message_publish id topic payload) o = published-IsCounted id topic payload h k o
      handled other o = k
  advance-IsCounted poison_connections h k = k
  advance-IsCounted poison_registry h k = k
  advance-IsCounted close h k = omega arith

  run-IsCounted :
      (es : List Happening) (h : ControllerHook)
      → IsCounted c h
      → IsCounted c (run from_json from_utf8_lossy es h)
  unfolding run
  run-IsCounted [] h k = k
  run-IsCounted (e ∷ es) h k =
      run-IsCounted es (advance from_json from_utf8_lossy e h) (advance-IsCounted e h k)

  -- Whatever happens to a new hook, in any order (events of any clients, takeovers, stale disconnects,
  -- poisoned locks and closing among them), a client is reported ready at most as often as it is
  -- reported connected: one connection leads to one round of notifications.
  pub ready-le-connected :
      (username password : Text) (registry : Registry) (closing : Bool) (es : List Happening)
      → let h = run from_json from_utf8_lossy es (new username password registry closing) in
        readies c h.called ≤ arrivals c h.called
  unfolding new readies arrivals
  ready-le-connected u w r b es =
      omega (arith, run-IsCounted es (new u w r b) (ground (arith, lookup-nil {V = Connection} c)))
