-- ===== src/Tests.antt =====
-- Runs of the modelled code at concrete inputs.
mod Samples
mod Calendars
mod Devices
mod Forecasts
mod Controllers
mod Formats
mod Nights
mod Payloads
mod Schedules
mod Configs
mod Flags
mod Answers
mod Runs
mod Starts
