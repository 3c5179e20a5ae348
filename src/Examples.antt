-- ===== src/Examples.antt =====
-- The theorems applied at concrete inputs.
mod Rollback
mod Mcp
mod Bundle
mod Writer
mod Presentation
mod Names
mod Store
mod Rename
mod Discovery
