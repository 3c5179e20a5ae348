-- ===== src/Bundle/Order.antt =====
-- The order of the entries of a bundle.
pub mod Lex
pub mod Stack
pub mod Canonical
