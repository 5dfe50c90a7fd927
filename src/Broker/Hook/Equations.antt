-- ===== src/Broker/Hook/Equations.antt =====
-- src/broker/hook.rs: each method as one equation, while no lock is poisoned.
use awtrix_controller.Prelude.{
  ◌≡◌, ◌&&◌, not, Bool, true, false, Option, none, some, [], ◌∷◌, ◌++◌, arith, ok, if◌then◌else◌,
  if_rule, Option-cases, Bool-cases, inl, inr,
}
use awtrix_controller.Prelude.Text.{Text, bytes}
use awtrix_controller.Prelude.Dict.{Dict, lookup, insert, erase}
use awtrix_controller.State.{put}
use awtrix_controller.Model.Stats.{Stats}
use awtrix_controller.ClientState.{
  ClientState, register, unregister, update_stats, update_current_app, default, modify,
}
use awtrix_controller.Broker.Hook.{
  RmqttId, of, same_session, Connection, ControllerHook, Callback, on_connected, on_device_ready,
  connected, disconnected, mark_ready, publish_stats, published, is_current, ends_with, Parameter,
  client_authenticate, client_connected, client_disconnected, message_publish, other, HookResult,
  hook, handle, settle,
}

-- Neither lock is poisoned.
pub record IsSound (h : ControllerHook) : Type 0 where
  pub connections_free : h.connections.is_poisoned ≡ false
  pub registry_free : h.registry.clients.is_poisoned ≡ false

-- The session that is current for a client.
abbrev pub session_of : ControllerHook → Text → Option Connection
session_of h c = lookup c h.connections.value

-- The hook with other tables behind its locks.
abbrev pub with_tables : ControllerHook → Dict Connection → Dict ClientState → ControllerHook
with_tables h connections clients = record h {
  connections = put connections h.connections;
  registry = record { clients = put clients h.registry.clients };
}

abbrev pub with_call : Callback → ControllerHook → ControllerHook
with_call c h = record h { called = h.called ++ c ∷ [] }

module _ (id : RmqttId) (h : ControllerHook) (s : IsSound h) where
  pub connected_eq : connected id h ≡ (
    ok tt,
    with_call (on_connected id.client_id) (
        with_tables h
          (insert id.client_id (record { session = of id; ready = false }) h.connections.value)
          (insert id.client_id default h.registry.clients.value)),
  )
  unfolding connected register
  connected_eq = ground arith

  pub disconnected_eq : disconnected id h ≡ (
    ok tt,
    if is_current id (session_of h id.client_id)
        then with_tables h
            (erase id.client_id h.connections.value)
            (erase id.client_id h.registry.clients.value)
        else h,
  )
  unfolding disconnected unregister
  disconnected_eq = ground arith

-- Whether the publisher's session is current and not ready, and the table once it is.
abbrev pub becomes_ready : RmqttId → Option Connection → Bool
becomes_ready id none = false
becomes_ready id (some connection) = same_session connection.session (of id) && not connection.ready

abbrev pub marked : RmqttId → Option Connection → Dict Connection → Dict Connection
marked id none m = m
marked id (some connection) m =
    if becomes_ready id (some connection)
    then insert id.client_id (record connection { ready = true }) m
    else m

pub mark_ready_eq :
    (id : RmqttId) (h : ControllerHook)
    → IsSound h
    → let entry = session_of h id.client_id in
      mark_ready id h ≡ (
        ok (becomes_ready id entry),
        record h { connections = put (marked id entry h.connections.value) h.connections },
      )
unfolding mark_ready
mark_ready_eq id h s = elim (Option-cases (session_of h id.client_id)) [
  | inl e ↦ ground arith
  | inr (c, e) ↦ ground arith
]

abbrev pub stored : Text → Option Stats → Dict ClientState → Dict ClientState
stored c none m = m
stored c (some stats) m = modify c (λ s. record s { stats = some stats }) m

abbrev pub with_report : Text → Bool → ControllerHook → ControllerHook
with_report c true h = with_call (on_device_ready c) h
with_report c false h = h

module _ (from_json : Text → Option Stats) (from_utf8_lossy : Text → Text) where
  pub publish_stats_eq :
      (id : RmqttId) (payload : Text) (h : ControllerHook)
      → IsSound h
      → let entry = session_of h id.client_id in
        publish_stats from_json from_utf8_lossy id payload h ≡ (
          ok tt,
          with_report id.client_id (becomes_ready id entry) (
              with_tables h
                (marked id entry h.connections.value)
                (stored id.client_id (from_json payload) h.registry.clients.value)),
        )
  unfolding publish_stats update_stats
  publish_stats_eq id payload h s = elim (Option-cases (from_json payload)) [
    | inl e ↦ elim (Option-cases (session_of h id.client_id)) [
      | inl e' ↦ ground arith
      | inr (c, e') ↦ ground arith
    ]
    | inr (stats, e) ↦ elim (Option-cases (session_of h id.client_id)) [
      | inl e' ↦ ground arith
      | inr (c, e') ↦ ground arith
    ]
  ]

  -- What a publish does, by the topic.
  abbrev pub routed : RmqttId → Text → Text → ControllerHook → ControllerHook
  routed id topic payload h =
      let entry = session_of h id.client_id in
      if ends_with topic (bytes "/stats")
      then with_report id.client_id (becomes_ready id entry) (
          with_tables h (marked id entry h.connections.value)
            (stored id.client_id (from_json payload) h.registry.clients.value))
      else if ends_with topic (bytes "/stat/currentApp")
      then with_tables h h.connections.value (
          modify id.client_id (λ s. record s { current_app = from_utf8_lossy payload })
            h.registry.clients.value)
      else h

  pub published_eq :
      (id : RmqttId) (topic payload : Text) (h : ControllerHook)
      → IsSound h
      → published from_json from_utf8_lossy id topic payload h ≡ (ok tt, routed id topic payload h)
  unfolding published update_current_app
  published_eq id topic payload h s = elim (Bool-cases (ends_with topic (bytes "/stats"))) [
    | inl e ↦ rw e (publish_stats_eq id payload h s)
    | inr e ↦ rw e (elim (Bool-cases (ends_with topic (bytes "/stat/currentApp"))) [
      | inl e' ↦ rw e' (ground arith)
      | inr e' ↦ rw e'
    ])
  ]

  -- A property of the hook survives an event if it survives the handling of one while open.
  pub hook_rule {ℓ} :
      (P : ControllerHook → Type ℓ) (p : Parameter) (accumulated : Option HookResult)
      (h : ControllerHook)
      → P h
      → (h.closing ≡ false → P (settle (handle from_json from_utf8_lossy p h)))
      → P (hook from_json from_utf8_lossy p accumulated h).2
  unfolding hook
  hook_rule P (client_authenticate u w) accumulated h kept open_case = kept
  hook_rule P (client_connected id) accumulated h kept open_case =
      if_rule P h.closing kept open_case
  hook_rule P (client_disconnected id) accumulated h kept open_case =
      if_rule P h.closing kept open_case
  hook_rule P (message_publish id topic payload) accumulated h kept open_case =
      if_rule P h.closing kept open_case
  hook_rule P other accumulated h kept open_case = if_rule P h.closing kept open_case
