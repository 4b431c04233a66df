-- ===== src/Frontend.antt =====
-- The lowering of PTX in crates/slugarch-ptx-frontend.
pub mod Texts
pub mod Ast
pub mod Lower
pub mod Kernel
mod Tests
