-- ===== src/Wire.antt =====
-- The crate slugarch-cxl-wire: CXL messages and their 64-byte flits (msg.rs, flit.rs, error.rs,
-- encode.rs, decode.rs). The children hold the definitions and the proofs about them.
pub mod Msg
pub mod Codec
pub mod Layout
pub mod RoundTrip
pub mod Reencode
pub mod Reject
mod Tests
