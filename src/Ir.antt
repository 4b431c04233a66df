-- ===== src/Ir.antt =====
-- The intermediate representation of crates/slugarch-ir, and its passes.
pub mod Types
pub mod Ops
pub mod Graph
pub mod SelectBackend
pub mod FuseDecodeOps
pub mod AssignTokens
pub mod Pass
pub mod ValidateAgainstRtlmap
mod Tests
