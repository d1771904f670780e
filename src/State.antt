-- ===== src/State.antt =====
-- program/src/state.rs: the account layouts.
pub mod LightClient
pub mod Ring
