-- ===== src/Broker/Hook/Agreement.antt =====
-- src/broker/hook.rs: the table of sessions and the registry hold the same clients.
use awtrix_controller.Prelude.{
  ◌≡◌, refl, sym, ◌∙◌, ◌&&◌, inl, inr, Bool, true, false, Option, none, some, List, [], ◌∷◌, ◌++◌,
  map, arith, Bool-cases, is_some, if_rule, if◌then◌else◌, ok, Option-cases,
}
use awtrix_controller.Prelude.Text.{Text, bytes, same, same_iff}
use awtrix_controller.Prelude.Dict.{Dict, lookup, lookup-insert, lookup-erase, lookup-nil}
use awtrix_controller.Model.Stats.{Stats}
use awtrix_controller.ClientState.{ClientState, default, modify}
use awtrix_controller.ClientState.Laws.{view, lookup-modify}
use awtrix_controller.ClientState
use awtrix_controller.Broker.Hook
use awtrix_controller.Broker.Hook.Run.{event, advance, run}
use awtrix_controller.Broker.Hook.{
  RmqttId, of, Connection, ControllerHook, Callback, on_connected, connected, disconnected,
  is_current, ends_with, Parameter, client_authenticate, client_connected, client_disconnected,
  message_publish, other, HookResult, hook, handle, settle,
}
use awtrix_controller.Broker.Hook.Equations.{
  IsSound, session_of, with_tables, connected_eq, disconnected_eq, published_eq, becomes_ready,
  marked, routed, stored, with_report, hook_rule,
}

-- On sound locks a connection takes its client over: its session is the current one and not ready,
-- its registry entry is fresh, no other client is touched, and the device is reported connected.
pub connected-takes_over :
    (id : RmqttId) (h : ControllerHook) (j : Text)
    → IsSound h
    → let (res, h') = connected id h in
      let hit = same id.client_id j in
      (res ≡ ok tt)
      × (session_of h' j
          ≡ (if hit then some (record { session = of id; ready = false }) else session_of h j))
      × (view h'.registry j ≡ (if hit then some default else view h.registry j))
      × (h'.called ≡ h.called ++ on_connected id.client_id ∷ [])
connected-takes_over id h j s = rw (connected_eq id h s) (
  refl,
  lookup-insert id.client_id j (record { session = of id; ready = false }) h.connections.value,
  lookup-insert id.client_id j default h.registry.clients.value,
  refl,
)

-- On sound locks the disconnect of the current session of a client removes that client, and no
-- other, from both tables; the disconnect of any other session, one that was taken over say, changes
-- neither table. Either succeeds, reports nothing to the controller and leaves the broker open or
-- closing as it was.
pub disconnected-current_only :
    (id : RmqttId) (h : ControllerHook) (j : Text)
    → IsSound h
    → let (res, h') = disconnected id h in
      let gone = is_current id (session_of h id.client_id) && same id.client_id j in
      (res ≡ ok tt)
      × (session_of h' j ≡ (if gone then none else session_of h j))
      × (view h'.registry j ≡ (if gone then none else view h.registry j))
      × (h'.called ≡ h.called)
      × (h'.closing ≡ h.closing)
disconnected-current_only id h j s =
    rw (disconnected_eq id h s) (elim (Bool-cases (is_current id (session_of h id.client_id))) [
      | inl e ↦ rw e (
        refl,
        lookup-erase id.client_id j h.connections.value,
        lookup-erase id.client_id j h.registry.clients.value,
        refl,
        refl,
      )
      | inr e ↦ rw e (refl, refl, refl, refl, refl)
    ])

-- A client has a session exactly when it is registered.
abbrev pub Agrees : ControllerHook → Type 0
Agrees h = (j : Text) → is_some (session_of h j) ≡ is_some (view h.registry j)

-- The tables agree wherever each has the clients that it had.
is_some-modify :
    (k j : Text) (f : ClientState → ClientState) (m : Dict ClientState)
    → is_some (lookup j (modify k f m)) ≡ is_some (lookup j m)
is_some-modify k j f m = ground (arith, lookup-modify k j f m)

is_some-stored :
    (k j : Text) (stats : Option Stats) (m : Dict ClientState)
    → is_some (lookup j (stored k stats m)) ≡ is_some (lookup j m)
is_some-stored k j none m = refl
is_some-stored k j (some s) m = is_some-modify k j (λ c. record c { stats = some s }) m

is_some-marked :
    (id : RmqttId) (j : Text) (m : Dict Connection)
    → is_some (lookup j (marked id (lookup id.client_id m) m)) ≡ is_some (lookup j m)
is_some-marked id j m = elim (Option-cases (lookup id.client_id m)) [
  | inl e ↦ rw e
  | inr (c, e) ↦
      ground
        (arith, same_iff id.client_id j, lookup-insert id.client_id j (record c { ready = true }) m)
]

-- The locks are sound and the tables agree.
abbrev Good : ControllerHook → Type 0
Good h = IsSound h × Agrees h

module _ (from_json : Text → Option Stats) (from_utf8_lossy : Text → Text) where
  with_report-Good : (c : Text) (b : Bool) (h : ControllerHook) → Good h → Good (with_report c b h)
  with_report-Good c true h (s, a) =
      (record { connections_free = s.connections_free; registry_free = s.registry_free }, a)
  with_report-Good c false h g = g

  with_tables-Good :
      (h : ControllerHook) (m : Dict Connection) (n : Dict ClientState)
      → IsSound h
      → ((j : Text) → is_some (lookup j m) ≡ is_some (lookup j n))
      → Good (with_tables h m n)
  with_tables-Good h m n s a =
      (record { connections_free = s.connections_free; registry_free = s.registry_free }, a)

  routed-Good :
      (id : RmqttId) (topic payload : Text) (h : ControllerHook)
      → Good h
      → Good (routed from_json from_utf8_lossy id topic payload h)
  routed-Good id topic payload h (s, a) =
      let entry = session_of h id.client_id in
      if_rule Good (ends_with topic (bytes "/stats"))
        (with_report-Good id.client_id (becomes_ready id entry) _ (
          with_tables-Good h (marked id entry h.connections.value)
            (stored id.client_id (from_json payload) h.registry.clients.value) s
            (λ j. ground (
              arith,
              a j,
              is_some-marked id j h.connections.value,
              is_some-stored id.client_id j (from_json payload) h.registry.clients.value,
            ))))
        (λ _.
          if_rule Good (ends_with topic (bytes "/stat/currentApp"))
            (with_tables-Good h h.connections.value _ s (λ j.
              a j
              ∙ sym (
                  is_some-modify id.client_id j
                    (λ c. record c { current_app = from_utf8_lossy payload })
                    h.registry.clients.value)))
            (λ _. (s, a)))

  pub hook-Agrees :
      (p : Parameter) (accumulated : Option HookResult) (h : ControllerHook)
      → IsSound h
      → Agrees h
      → let (_, _, h') = hook from_json from_utf8_lossy p accumulated h in IsSound h' × Agrees h'
  hook-Agrees p accumulated h s a =
      hook_rule from_json from_utf8_lossy Good p accumulated h (s, a) (λ _. handled p)
    where
      handled : (p : Parameter) → Good (settle (handle from_json from_utf8_lossy p h))
      handled (client_authenticate u w) = (s, a)
      handled (client_connected id) = rw (connected_eq id h s) (
        record { connections_free = s.connections_free; registry_free = s.registry_free },
        λ j. ground (
          arith,
          a j,
          lookup-insert id.client_id j (record { session = of id; ready = false })
              h.connections.value,
          lookup-insert id.client_id j default h.registry.clients.value,
        ),
      )
      handled (client_disconnected id) = rw (disconnected_eq id h s) (
          if_rule Good (is_current id (session_of h id.client_id))
            (with_tables-Good h _ _ s (λ j. ground (
              arith,
              a j,
              lookup-erase id.client_id j h.connections.value,
              lookup-erase id.client_id j h.registry.clients.value,
            )))
            (λ _. (s, a)))
      handled (message_publish id topic payload) =
          rw (published_eq from_json from_utf8_lossy id topic payload h s)
            (routed-Good id topic payload h (s, a))
      handled other = (s, a)

  run-Good :
      (ps : List Parameter) (h : ControllerHook)
      → Good h
      → Good (run from_json from_utf8_lossy (map event ps) h)
  unfolding run advance
  run-Good [] h g = g
  run-Good (p ∷ ps) h g =
      run-Good ps (hook from_json from_utf8_lossy p none h).2 (hook-Agrees p none h g.0 g.1)

  -- From a new hook with an empty registry, any sequence of events handled one at a time leaves the
  -- two tables in agreement, as long as no writer panics: a client has a current session exactly
  -- when it is registered, through reconnections, takeovers and stale disconnects.
  pub run-Agrees :
      (username password : Text) (ps : List Parameter) (j : Text)
      → let h =
          run from_json from_utf8_lossy
            (map event ps)
            (Hook.new username password ClientState.new false) in
        is_some (session_of h j) ≡ is_some (view h.registry j)
  unfolding Hook.new ClientState.new
  run-Agrees u w ps j =
      (run-Good ps (Hook.new u w ClientState.new false) (
        record { connections_free = refl; registry_free = refl },
        λ k. ground (arith, lookup-nil {V = Connection} k, lookup-nil {V = ClientState} k),
      )).1
        j
