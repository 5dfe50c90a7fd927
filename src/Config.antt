-- ===== src/Config.antt =====
-- src/config/: the configuration, from the file's settings to the validated sections.
pub mod Timezone
pub mod TimeOfDay
pub mod Defaults
pub mod File
pub mod Lenient
pub mod Sections
pub mod Entry
pub mod WeatherSection
pub mod Validate
pub mod View
