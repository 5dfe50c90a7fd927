-- ===== src/Model/Open.antt =====
-- src/model/enums.rs: the open string enums besides the overlay.
pub mod TimeFormat
pub mod DateFormat
pub mod Effect
pub mod EffectPalette
