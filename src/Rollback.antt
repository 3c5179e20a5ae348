-- ===== src/Rollback.antt =====
-- crates/quarters-core/src/store/artifact/rollback.rs: the guarded three-state rollback of one space.
pub mod Model
pub mod Disk
pub mod Publish
pub mod Recovery
pub mod Shapes
pub mod Steps
pub mod States
pub mod PublishSafety
pub mod Cleanup
pub mod RecoverySafety
pub mod Plans
pub mod Passes
pub mod Settling
pub mod Names
pub mod Crash
