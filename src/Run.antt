-- ===== src/Run.antt =====
-- src/run/mod.rs: the wiring of the components. The children have the connected devices (`Devices`), the
-- main loop (`Loop`), the way from the arguments to the configuration (`Start`), and the start of the
-- components with the exit (`Launch`).
pub mod Devices
pub mod Loop
pub mod Start
pub mod Launch
