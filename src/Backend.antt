-- ===== src/Backend.antt =====
-- The dispatch commands of crates/slugarch-backend.
pub mod Bind
pub mod Emit
pub mod Commands
pub mod Selected
mod Tests
