-- ===== src/Run/Launch/Codes.antt =====
-- src/run/mod.rs: the exit codes of a run whose components are started.
use awtrix_controller.Prelude.{
  ℕ, ◌≡◌, refl, ◌+◌, Bool, Option, none, some, List, [], Result, ok, err, ◌>>=◌, is_some,
  if◌then◌else◌,
}
use awtrix_controller.Prelude.Text.{Text}
use awtrix_controller.Instants.{Instants, Floats}
use awtrix_controller.Config.Timezone.{Zones}
use awtrix_controller.Model.Settings as Payload
use awtrix_controller.Model.Payload.{Notification}
use awtrix_controller.Config.TimeOfDay.{ParseError}
use awtrix_controller.EnergySaving
use awtrix_controller.EnergySaving.{EnergySaving}
use awtrix_controller.ClientState.{Registry}
use awtrix_controller.Weather.Controller.{Self}
use awtrix_controller.Broker.Server.{BrokerConfig, BrokerError}
use awtrix_controller.Run.Devices.{Publish}
use awtrix_controller.Run.Loop.{Happening, Ended, main_loop}
use awtrix_controller.Run.Loop.Exits.{HasEnd, main_loop-ends, main_loop-outcome}
use awtrix_controller.Run.Start.{Prepared, Exit, early}
use awtrix_controller.Run.Launch.{
  Components, with_broker, with_modes, start_components, start, shut_down, broker_config,
}

module _ (JsonError PublishError JoinError : Type 0)
    (settings_json : Payload.Settings → Result JsonError Text)
    (notification_json : Notification → Result JsonError Text)
    (broker_publish : Publish → Result PublishError (Unit {0})) (time : Instants) (fl : Floats)
    (zones : Zones) (is_v6 : Bool)
    (broker_start : BrokerConfig → Result (BrokerError JoinError) (Unit {0})) where
  abbrev pub Started : Type 0
  Started =
      Components JsonError PublishError JoinError settings_json notification_json broker_publish
        time fl zones is_v6 broker_start

  abbrev pub components : Registry → Prepared fl.F zones.Zone → Result Exit Started
  components registry p =
      start_components JsonError PublishError JoinError settings_json notification_json
        broker_publish time fl zones is_v6 broker_start registry p

  abbrev pub loop :
      Prepared fl.F zones.Zone → Started → List (Happening (Self time fl zones)) → Option Ended
  loop p c hs =
      main_loop JsonError PublishError settings_json notification_json broker_publish time fl zones
        p.test_notification c.devices [] hs

  -- What a run exits with when its loop ended: 2 if and only if a failure is recorded, and otherwise 0.
  abbrev pub TellsCode : ℕ → Ended → Exit → Type 0
  TellsCode now r x =
      (x.code ≡ (if is_some r.devices.failures.first then 2 else 0))
      × (x.deadline ≡ some (now + 2000))

  -- What a run exits with: 2 at once when the components did not start.
  abbrev pub IsExit :
      Prepared fl.F zones.Zone
      → List (Happening (Self time fl zones))
      → ℕ
      → Result Exit Started
      → Exit
      → Type 0
  IsExit p hs now (err y) x = (x.deadline ≡ none) × (x.code ≡ 2)
  IsExit p hs now (ok c) x = (r : Ended) × (loop p c hs ≡ some r) × TellsCode now r x

  -- An exit before the loop has code 2.
  FailsAsComponent : Result Exit Started → Type 0
  FailsAsComponent (err y) = (y.deadline ≡ none) × (y.code ≡ 2)
  FailsAsComponent (ok c) = Unit

  with_broker-code :
      (registry : Registry) (p : Prepared fl.F zones.Zone) (es : EnergySaving)
      (served : Result (BrokerError JoinError) (Unit {0}))
      → FailsAsComponent (
          with_broker JsonError PublishError JoinError settings_json notification_json
            broker_publish time fl zones is_v6 broker_start registry p es served)
  unfolding FailsAsComponent early
  with_broker-code registry p es (err e) = (refl, refl)
  with_broker-code registry p es (ok _) = tt

  with_modes-code :
      (registry : Registry) (p : Prepared fl.F zones.Zone) (modes : Result ParseError EnergySaving)
      → FailsAsComponent (
          with_modes JsonError PublishError JoinError settings_json notification_json broker_publish
            time fl zones is_v6 broker_start registry p modes)
  unfolding FailsAsComponent early
  with_modes-code registry p (err e) = (refl, refl)
  with_modes-code registry p (ok es) =
      with_broker-code registry p es (broker_config JoinError is_v6 p.config >>= broker_start)

  component-code :
      (registry : Registry) (p : Prepared fl.F zones.Zone) (y : Exit)
      → components registry p ≡ err y
      → (y.deadline ≡ none) × (y.code ≡ 2)
  unfolding start_components FailsAsComponent
  component-code registry p y h =
      let fails : FailsAsComponent (components registry p) =
        with_modes-code registry p (EnergySaving.new p.config.energy_saving) in
      rw h at fails

  shut_down-code :
      (now : ℕ) (r : Ended)
      → r.failed ≡ is_some r.devices.failures.first
      → TellsCode now r (shut_down now r)
  unfolding shut_down
  shut_down-code now r h = (rw h refl, refl)

  -- A run that is asked to stop or to which an error is reported exits: with code 2 and no deadline when
  -- the components do not start, and otherwise after the main loop, with code 2 if and only if a failure
  -- is recorded and 0 if not, its shutdown being due 2 seconds after it started.
  pub start-IsExit :
      (registry : Registry) (p : Prepared fl.F zones.Zone)
      (hs : List (Happening (Self time fl zones)))
      → HasEnd hs
      → (now : ℕ)
      → (x : Exit) × (start JsonError PublishError JoinError settings_json notification_json
            broker_publish time fl zones is_v6 broker_start registry p hs now
          ≡ some x)
        × IsExit p hs now (components registry p) x
  unfolding start
  start-IsExit registry p hs end now = launched (components registry p) refl
    where
      launched :
          (c : Result Exit Started)
          → components registry p ≡ c
          → (x : Exit) × (start JsonError PublishError JoinError settings_json notification_json
                broker_publish time fl zones is_v6 broker_start registry p hs now
              ≡ some x)
            × IsExit p hs now (components registry p) x
      launched (err y) eq = (y, rw (eq, start) refl, rw eq (component-code registry p y eq))
      launched (ok c) eq =
          let (r, ends) =
            main_loop-ends JsonError PublishError settings_json notification_json broker_publish
              time fl zones p.test_notification hs end c.devices [] in
          let tells =
            main_loop-outcome JsonError PublishError settings_json notification_json broker_publish
              time fl zones p.test_notification hs c.devices [] r ends in
          (
            shut_down now r,
            rw (eq, start) (rw ends refl),
            rw eq (r, ends, shut_down-code now r tells),
          )
