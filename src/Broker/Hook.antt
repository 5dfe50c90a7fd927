-- ===== src/Broker/Hook.antt =====
-- src/broker/hook.rs: authentication, the registry of connected devices, and the routing of what
-- devices publish. A method is an action on the hook's state: what it wrote stays written when it
-- fails, and the callbacks it makes are listed in `called`. The logs are left out, and so is the
-- test-only `publish_delay`, a stall that changes no state.
pub mod Auth
pub mod Equations
pub mod Run
pub mod Agreement
pub mod Ready
pub mod Failure
use awtrix_controller.Prelude.{
  ℕ, ◌&&◌, Bool, true, false, not, Option, none, some, List, [], ◌∷◌, ◌++◌, Result, ok, err, ◌==◌,
  if◌then◌else◌,
}
use awtrix_controller.Prelude.Int.{ℤ, eqb_ℤ}
use awtrix_controller.Prelude.Text.{Text, bytes, same}
use awtrix_controller.Prelude.Dict.{Dict, lookup, insert, erase}
use awtrix_controller.Model.Stats.{Stats}
use awtrix_controller.State.{StateError, Lock, acquire, put, checked}
use awtrix_controller.ClientState.{Registry, register, unregister, update_stats, update_current_app}

-- A socket address is only compared, so it is a number.
abbrev pub SocketAddr : Type 0
SocketAddr = ℕ

-- The fields of rmqtt's `Id` that the hook reads.
pub record RmqttId : Type 0 where
  pub client_id : Text
  pub create_time : ℤ
  pub remote_addr : Option SocketAddr

pub record SessionKey : Type 0 where
  pub create_time : ℤ
  pub remote_addr : Option SocketAddr

-- `SessionKey::of`.
abbrev pub of : RmqttId → SessionKey
of id = record { create_time = id.create_time; remote_addr = id.remote_addr }

abbrev same_addr : Option SocketAddr → Option SocketAddr → Bool
same_addr none none = true
same_addr (some a) (some b) = a == b
same_addr _ _ = false

-- The derived `PartialEq`.
unfoldable pub same_session : SessionKey → SessionKey → Bool
same_session a b = eqb_ℤ a.create_time b.create_time && same_addr a.remote_addr b.remote_addr

pub record Connection : Type 0 where
  pub session : SessionKey
  pub ready : Bool

pub data Callback : Type 0 where
  on_connected : Text → Callback
  on_device_ready : Text → Callback
  on_state_error : StateError → Callback

pub record ControllerHook : Type 0 where
  pub username : Text
  pub password : Text
  pub registry : Registry
  pub closing : Bool
  pub connections : Lock (Dict Connection)
  pub called : List Callback

unfoldable pub new : Text → Text → Registry → Bool → ControllerHook
new username password registry closing = record {
  username = username;
  password = password;
  registry = registry;
  closing = closing;
  connections = record { value = []; is_poisoned = false };
  called = [];
}

-- rmqtt's verdicts that the hook uses; `Allow` carries `false` and `None`.
pub data AuthResult : Type 0 where
  allow not_authorized bad_username_or_password not_found : AuthResult

-- `text == Some(given)`.
abbrev matches : Option Text → Text → Bool
matches none t = false
matches (some s) t = same s t

unfoldable pub authenticate : ControllerHook → Option Text → Option Text → AuthResult
authenticate hook username password =
    let username_matches = matches username hook.username in
    let password_matches = matches password hook.password in
    if hook.closing
    then AuthResult.not_authorized
    else if username_matches && password_matches
    then AuthResult.allow
    else AuthResult.bad_username_or_password

-- An action: its result and the state after it, whether it failed or not.
abbrev pub Action : Type 0 → Type 0
Action A = ControllerHook → Result StateError A × ControllerHook

infixl 5 ◌>>=◌ ◌>>◌
abbrev pub ◌>>=◌ : {A B : Type 0} → Action A → (A → Action B) → Action B
◌>>=◌ m f h = let (r, h') = m h in elim r [ ok a ↦ f a h' | err e ↦ (err e, h') ]

abbrev pub ◌>>◌ : {A B : Type 0} → Action A → Action B → Action B
m >> k = m >>= λ _. k

abbrev pub pure : {A : Type 0} → A → Action A
pure a h = (ok a, h)

abbrev pub when : Bool → Action (Unit {0}) → Action (Unit {0})
when b m = if b then m else pure tt

-- A method of the registry, called on the hook's.
abbrev pub on_registry : (Registry → Result StateError (Unit {0}) × Registry) → Action (Unit {0})
on_registry f h = let (r, registry) = f h.registry in (r, record h { registry = registry })

abbrev pub call : Callback → Action (Unit {0})
call c h = (ok tt, record h { called = h.called ++ c ∷ [] })

-- `lock`, and a write through its guard.
lock : Action (Dict Connection)
lock h = (checked (acquire h.connections) (bytes "broker connections"), h)

abbrev pub set_connections : Dict Connection → Action (Unit {0})
set_connections m h = (ok tt, record h { connections = put m h.connections })

unfoldable pub connected : RmqttId → Action (Unit {0})
unfolding lock checked
connected id = do
  connections ← lock
  set_connections (insert id.client_id (record { session = of id; ready = false }) connections)
  on_registry (λ r. register r id.client_id)
  call (on_connected id.client_id)

-- Whether the entry is of the session.
abbrev pub is_current : RmqttId → Option Connection → Bool
is_current id none = false
is_current id (some connection) = same_session connection.session (of id)

unfoldable pub disconnected : RmqttId → Action (Unit {0})
unfolding lock checked
disconnected id = do
  connections ← lock
  let current = is_current id (lookup id.client_id connections)
  when current (set_connections (erase id.client_id connections))
  when current (on_registry (λ r. unregister r id.client_id))

-- The `match` of `mark_ready` on the publisher's entry.
abbrev pub mark_entry : RmqttId → Dict Connection → Option Connection → Action Bool
mark_entry id connections none = pure false
mark_entry id connections (some connection) =
    let marked = insert id.client_id (record connection { ready = true }) connections in
    if same_session connection.session (of id) && not connection.ready
    then set_connections marked >> pure true
    else pure false

unfoldable pub mark_ready : RmqttId → Action Bool
unfolding lock checked
mark_ready id = do connections ← lock; mark_entry id connections (lookup id.client_id connections)

-- The publisher is reported ready when `mark_ready` says so.
unfoldable pub report_ready : RmqttId → Action (Unit {0})
unfolding mark_ready
report_ready id = do ready ← mark_ready id; when ready (call (on_device_ready id.client_id))

-- `str::ends_with`.
unfoldable pub ends_with : Text → Text → Bool
ends_with [] suffix = same [] suffix
ends_with (c ∷ s) suffix = if same (c ∷ s) suffix then true else ends_with s suffix

unfoldable pub state_failed : StateError → ControllerHook → ControllerHook
state_failed error h = record h { closing = true; called = h.called ++ on_state_error error ∷ [] }

-- What rmqtt calls the hook with; `other` stands for the parameters it is not registered for.
pub data Parameter : Type 0 where
  client_authenticate : Option Text → Option Text → Parameter
  client_connected : RmqttId → Parameter
  client_disconnected : RmqttId → Parameter
  message_publish : RmqttId → Text → Text → Parameter
  other : Parameter

pub data HookResult : Type 0 where
  auth_result : AuthResult → HookResult
  other_result : HookResult

-- `if let Err(error) = handled`.
abbrev pub settle : Result StateError (Unit {0}) × ControllerHook → ControllerHook
settle (ok _, h) = h
settle (err e, h) = state_failed e h

-- `Stats::from_json`, whose JSON reader is a parameter of its own, without the text of its error,
-- and `String::from_utf8_lossy`, whose result the hook only passes on.
module _ (from_json : Text → Option Stats) (from_utf8_lossy : Text → Text) where
  abbrev pub store_stats : Text → Option Stats → Action (Unit {0})
  store_stats client_id none = pure tt
  store_stats client_id (some stats) = on_registry (λ r. update_stats r client_id stats)

  unfoldable pub publish_stats : RmqttId → Text → Action (Unit {0})
  unfolding report_ready
  publish_stats id payload = do store_stats id.client_id (from_json payload); report_ready id

  -- Button presses and unknown topics are only logged.
  unfoldable pub published : RmqttId → Text → Text → Action (Unit {0})
  unfolding publish_stats
  published id topic payload =
      if ends_with topic (bytes "/stats")
      then publish_stats id payload
      else if ends_with topic (bytes "/stat/currentApp")
      then on_registry (λ r. update_current_app r id.client_id (from_utf8_lossy payload))
      else pure tt

  abbrev pub handle : Parameter → Action (Unit {0})
  handle (client_connected id) = connected id
  handle (client_disconnected id) = disconnected id
  handle (message_publish id topic payload) = published id topic payload
  handle _ = pure tt

  -- `SharedHook::hook`: whether the chain goes on, its result, and the state after.
  unfoldable pub hook :
      Parameter → Option HookResult → ControllerHook → Bool × Option HookResult × ControllerHook
  hook (client_authenticate username password) accumulated h =
      (false, some (auth_result (authenticate h username password)), h)
  hook parameter accumulated h =
      (true, accumulated, if h.closing then h else settle (handle parameter h))
