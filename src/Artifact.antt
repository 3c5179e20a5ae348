-- ===== src/Artifact.antt =====
-- Artifacts: their manifests, and what a transfer to another host makes of them.
pub mod Manifest
pub mod Transfer
