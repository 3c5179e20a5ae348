-- ===== src/Bundle.antt =====
-- crates/quarters-core/src/store/artifact/bundle/format.rs: the authenticated bundle format.
pub mod Paths
pub mod Order
pub mod Links
pub mod Counts
pub mod Header
pub mod Parse
pub mod Writer
