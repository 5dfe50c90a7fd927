-- ===== src/Weather.antt =====
-- src/weather/: mapping WMO codes to overlays, detecting severe weather, the notification state of
-- each event type, and the controller that polls and publishes.
pub mod Wmo
pub mod Forecast
pub mod Fetch
pub mod Simulate
pub mod Config
pub mod Events
pub mod Mapping
pub mod EventType
pub mod State
pub mod Controller
