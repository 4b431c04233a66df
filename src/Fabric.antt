-- ===== src/Fabric.antt =====
-- The event loop of crates/slugarch-fabric.
pub mod Engine
pub mod Rounds
pub mod Finish
pub mod Net
pub mod Refines
pub mod Completes
pub mod CpuOnly
pub mod Artifact
mod Tests
