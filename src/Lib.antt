-- ===== src/Lib.antt =====
-- awtrix-controller: a model of the controller's own logic, with the theorems that make it correct.
--
-- The program runs an MQTT broker (rmqtt) that Awtrix3 LED matrices connect to, keeps a registry of
-- them, polls a weather forecast, shows an overlay for it and warns of severe weather.
--
-- The parts, and where each is modelled:
--   State             src/state.rs: the error of a poisoned lock and the record of the first one. A
--                     lock is its value and its poison flag.
--   Model             src/model/: the stats payload (`Model.Stats`), the open string enums
--                     (`Model.Enums`, `Model.Open`), the notification payload (`Model.Payload`),
--                     and texts as JSON (`Model.Wire`).
--   ClientState       src/clientstate/mod.rs: `Registry`, the devices connected.
--   Broker.Hook       src/broker/hook.rs: `ControllerHook` and `SharedHook::hook`. Its methods call the
--                     registry's; its callbacks are listed in the order of their calls. Its children
--                     hold runs of events (`Run`) and what is proved of them.
--   Broker.Server     src/broker/mod.rs: the set-up, `BrokerHandle::publish` and `Broker::shutdown`.
--   Config            src/config/: the formats (`TimeOfDay`), the zones (`Timezone`), the file's records
--                     (`File`), the scalars read leniently (`Lenient`), the defaults, and
--                     src/config/mod.rs: `Sections` has the configuration, `Entry`, `WeatherSection`
--                     and `Validate` make it of the file, `View` is what is logged of it.
--   Weather.Wmo, Weather.Mapping
--                     src/weather/mapping/mod.rs: the WMO codes and `select_overlay`.
--   Weather.Events    src/weather/events/mod.rs: `detect_events`, over `Weather.EventType`'s types and
--                     the forecast's points (src/weather/fetch/mod.rs, `Weather.Forecast`).
--   Weather.State     src/weather/state/mod.rs: `StateManager::process`.
--   Weather.Controller
--                     src/weather/controller/mod.rs: `poll` composes the fetch, `select_overlay`,
--                     `apply_overlay`, `detect_events` and `process`, and publishes;
--                     `on_device_connected` replays the cached batch.
--   Weather.Fetch     src/weather/fetch/mod.rs: the address, the answer and its arrays.
--   Weather.Simulate  src/weather/simulate/mod.rs: the synthetic forecast.
--   Clock             src/clock/mod.rs, over what jiff knows of a time zone (`Calendar`).
--   EnergySaving      src/energysaving/mod.rs: `Window` and the controller that `transition` moves.
--   DayNight          src/daynight/mod.rs: the mode by the sun (`Sun`) and the events that move it.
--   Notification      src/notification/mod.rs: the daily and weekly occurrences, those of months and
--                     years (`Months`), and the jobs of the entries (`Jobs`).
--   Scheduler         src/scheduler/mod.rs: a job is a task with a phase; `Task` has its steps, `Step`
--                     those of the scheduler and its surroundings, `Reach` their sequences.
--   Settings          src/settings/mod.rs: `Builder`, whose payload is `Model.Settings`
--                     (src/model/settings.rs); its `push` is in `Run.Devices`.
--   Cli               src/cli/mod.rs: the flags with their parsers (`Flags`), the test notification, and
--                     the single-dash long form (`Form`).
--   Logger            src/logger/mod.rs: the level and the format.
--   Run               src/run/mod.rs: `Start` goes from the arguments to the configuration, by `Cli`,
--                     `Logger` and `Config`; `Launch` starts the broker and makes the devices and the
--                     weather controller; `Loop` serves what the callbacks queue, by `Devices`.
--   Prelude           lists, options, integers, texts, decimals and maps that the parts share.
--   Tests             runs at concrete inputs.
--
-- How the code is rendered: a method that mutates returns the state after it; `Result` is `Result`,
-- and `?` passes its error on; the order of the calls to the outside is a list. A `String` is the list
-- of its UTF-8 bytes, a hash map is an association list that is only looked up, inserted into and
-- erased from. An `i64` is an integer of `Prelude.Int`, whose `saturating_mul` and `wrapping_add` keep
-- to its range. A jiff `Timestamp` is a number of nanoseconds, so that earlier is less.
--
-- Tasks that run at the same time are sequences of steps: the scheduler's `Reach`, the runs of the
-- broker's hook, and the happenings of the main loop. Each happening carries what the other tasks have
-- made of the shared state by then, which is any state at all; a handler is run to its end before the
-- next event, and only the failures are kept from one to the next.
--
-- What comes from outside is a parameter: jiff's arithmetic of instants (`Instants`), its civil months
-- (`Civil`) and its reading of a local time, `f64` (`Floats`), the time zone database (`Zones`,
-- `Calendar`), the JSON reader and writer, the YAML reader, the file system, clap, rmqtt's listeners,
-- the HTTP agent, the case mapping of `Model.Stats`, the time read from the clock, what a fetch comes
-- to, and the devices connected when a candidate is published. No law of any of these is assumed by a
-- theorem unless it is stated among its hypotheses.
--
-- Every loop is over a list and terminates by its structure; only `Prelude.Decimal.digits` takes fuel,
-- the number to print plus one, which is more than its digits, and `EnergySaving.search` the source's
-- own bound of 8 days, after which the code itself gives up. The main loop takes one
-- happening after the other.
--
-- Not modelled: what is logged and how the logger is installed, the threads and channels of the broker,
-- the HTTP request itself, signals, the registration of the controllers with the scheduler, the sunrise
-- crate, the JSON that payloads are written as, but for texts, custom apps, and the
-- decoding of the configuration file field by field from its YAML tree.
pub mod Prelude
pub mod State
pub mod Model
pub mod ClientState
pub mod Broker
pub mod Instants
pub mod Config
pub mod Weather
pub mod Clock
pub mod EnergySaving
pub mod DayNight
pub mod Settings
pub mod Notification
pub mod Scheduler
pub mod Cli
pub mod Logger
pub mod Run
pub mod Tests
