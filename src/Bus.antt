-- ===== src/Bus.antt =====
-- src/bus/mod.rs, but for the names: errors, handles, messages and their values.
pub mod Library
pub mod RawError
pub mod Error
pub mod SdBus
pub mod Handles
pub mod Message
pub mod Types
mod Tests
