-- ===== src/Mcp.antt =====
-- crates/quarters-mcp: request admission, protocol families and the bounded transport.
pub mod Admission
pub mod Family
pub mod Transport
pub mod Framing
