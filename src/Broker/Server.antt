-- ===== src/Broker/Server.antt =====
-- src/broker/mod.rs: how the broker is set up, how it publishes, and its shutdown. rmqtt and the runtime
-- are parameters; the threads and the channel between them are left out.
pub mod Deadline
use awtrix_controller.Prelude.{
  ℕ, ◌+◌, ◌-◌, ◌∷◌, ◌++◌, ltb, Bool, true, false, Option, none, some, List, [], Result, ok, err,
  map_err, ◌>>=◌, if◌then◌else◌,
}
use awtrix_controller.Prelude.Text.{Text, bytes}
use awtrix_controller.Run.Devices.{Retention, retained, transient}

pub record SocketAddr : Type 0 where
  pub is_v6 : Bool
  pub port : ℕ

-- The publish delay, which only the tests set, is left out.
pub record BrokerConfig : Type 0 where
  pub tcp_addr : SocketAddr
  pub ws_addr : Option SocketAddr
  pub username : Text
  pub password : Text

pub data BrokerError (JoinError : Type 0) : Type 0 where
  setup : Text → Text → BrokerError JoinError
  publish_failed : Text → Text → BrokerError JoinError
  stopped : JoinError → BrokerError JoinError

-- The options of `rmqtt::net::Builder` that are set.
pub record Listener : Type 0 where
  pub name : Text
  pub laddr : SocketAddr
  pub allow_anonymous : Bool
  pub reuseaddr : Bool

pub data HookType : Type 0 where
  client_authenticate client_connected client_disconnected message_publish : HookType

pub record Server (Serving : Type 0) : Type 0 where
  pub hooks : List HookType
  pub listeners : List Serving

-- `CodecPublish`, whose packet id and properties are `None`; `qos` is its number.
pub record CodecPublish : Type 0 where
  pub dup : Bool
  pub retain : Bool
  pub qos : ℕ
  pub topic : Text
  pub payload : Text

module _ (JoinError : Type 0) where
  abbrev pub is_retained : Retention → Bool
  is_retained retained = true
  is_retained transient = false

  abbrev pub forwarded :
      Text → Result JoinError (Result Text (Unit {0})) → Result (BrokerError JoinError) (Unit {0})
  forwarded topic (err e) = err (stopped e)
  forwarded topic (ok (err message)) = err (publish_failed topic message)
  forwarded topic (ok (ok _)) = ok tt

  -- `BrokerHandle::publish`; `forwards` runs on the broker's runtime, which may be gone.
  unfoldable pub publish :
      (CodecPublish → Result JoinError (Result Text (Unit {0})))
      → Text
      → Text
      → Retention
      → Result (BrokerError JoinError) (Unit {0})
  publish forwards topic payload retention = forwarded topic (
      forwards (record {
        dup = false;
        retain = is_retained retention;
        qos = 1;
        topic = topic;
        payload = payload;
      }))

  module _ (Bound Serving : Type 0) (show : SocketAddr → Text) (bind : Listener → Result Text Bound)
      (tcp ws : Bound → Result Text Serving) (register_retainer : Result Text (Unit {0})) where
    unfoldable pub listener : Text → SocketAddr → Result (BrokerError JoinError) Bound
    listener name addr =
        map_err
          (λ error.
            setup (bytes "bind")
              (name ++ bytes " listener on " ++ show addr ++ bytes ": " ++ error))
          (bind (record { name = name; laddr = addr; allow_anonymous = false; reuseaddr = true }))

    unfoldable pub ws_listeners : Option SocketAddr → Result (BrokerError JoinError) (List Serving)
    ws_listeners none = ok []
    ws_listeners (some addr) = do
      bound ← listener (bytes "ws") addr
      serving ← map_err (setup (bytes "WebSocket listener")) (ws bound)
      ok (serving ∷ [])

    unfoldable pub set_up : BrokerConfig → Result (BrokerError JoinError) (Server Serving)
    set_up config = do
      _ ← map_err (setup (bytes "register the retainer")) register_retainer
      bound ← listener (bytes "tcp") config.tcp_addr
      serving ← map_err (setup (bytes "TCP listener")) (tcp bound)
      others ← ws_listeners config.ws_addr
      ok (record {
        hooks = client_authenticate ∷ client_connected ∷ client_disconnected ∷ message_publish ∷ [];
        listeners = serving ∷ others;
      })

-- Milliseconds.
abbrev pub shutdown_grace : ℕ
shutdown_grace = 100

-- `tokio::time::timeout` at an instant, of work that takes so long, `none` for ever: whether it finished,
-- and the instant after it. Work that is ready at the timeout counts as finished.
abbrev pub timeout : ℕ → ℕ → Option ℕ → Bool × ℕ
timeout now budget none = (false, now + budget)
timeout now budget (some d) = if ltb budget d then (false, now + budget) else (true, now + d)

-- What a shutdown has to wait for: the kicks, the sessions and the broker thread.
pub record Waits : Type 0 where
  pub kicked : Option ℕ
  pub drained : Option ℕ
  pub finished : Option ℕ

-- What a shutdown did: `closing` and the abort come before the first wait.
pub record Shutdown : Type 0 where
  pub closing : Bool
  pub server_aborted : Bool
  pub kicked_all : Bool
  pub no_sessions : Bool
  pub request : ℕ
  pub thread_finished : Bool
  pub returned_at : ℕ

-- `saturating_duration_since`.
abbrev pub remaining : ℕ → ℕ → ℕ
remaining deadline now = deadline - now

-- `Broker::shutdown`, called at an instant.
unfoldable pub shutdown : ℕ → ℕ → Waits → Shutdown
shutdown now deadline waits =
    let (kicked, t1) = timeout now (remaining deadline now) waits.kicked in
    let (drained, t2) = timeout t1 (remaining deadline t1) waits.drained in
    let (finished, t3) = timeout t2 (remaining deadline t2 + shutdown_grace) waits.finished in
    record {
      closing = true;
      server_aborted = true;
      kicked_all = kicked;
      no_sessions = drained;
      request = remaining deadline t2;
      thread_finished = finished;
      returned_at = t3;
    }
