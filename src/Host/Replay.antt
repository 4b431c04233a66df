-- ===== src/Host/Replay.antt =====
-- crates/slugarch-host/src/replay.rs: the boundary recorder. The serialised size of a record is
-- that of the bincode crate, and is a parameter of what uses it. The ratio in f64 of
-- `replay_bytes_per_app_gib` is not modelled.
pub mod Hash
pub mod Capture
pub mod Records
pub mod Recorder
pub mod Restore
pub mod Validate
pub mod Trace
mod Tests
