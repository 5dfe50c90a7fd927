-- ===== src/Model.antt =====
-- src/model/: the payloads exchanged with the firmware.
pub mod Stats
pub mod Enums
pub mod Open
pub mod Names
pub mod Payload
pub mod Wire
pub mod Settings
