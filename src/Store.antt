-- ===== src/Store.antt =====
-- The store of spaces: the checks of what lies on disk, the manifests, and the rename of a space.
pub mod Policy
pub mod Manifest
pub mod Rename
