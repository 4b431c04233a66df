-- ===== src/Host.antt =====
-- The crate slugarch-host: the GEMM dispatch stream (dispatch.rs), the host loop (host.rs), the
-- readback (result.rs) and the replay recorder (replay.rs).
pub mod Types
pub mod Dispatch
pub mod Readback
pub mod Tokens
pub mod Stream
pub mod Replay
pub mod Run
pub mod Endpoint
pub mod Exchange
pub mod Schedule
pub mod Product
pub mod Plan
pub mod Gemm
pub mod Ideal
pub mod Recorded
pub mod Replayed
pub mod Failures
pub mod Silent
pub mod SimFeasible
pub mod QemuType2
mod Tests
