-- ===== src/Vault.antt =====
-- The vault plugin, plugins/vivim-vault/src.
pub mod Canon
pub mod Json
pub mod Store
pub mod Append
pub mod Compact
mod Rows
pub mod Spec
mod Refined
pub mod Grown
pub mod Refinement
pub mod Sound
pub mod Copy
pub mod Reads
pub mod Query
pub mod Ops
mod Examples
pub mod Verify
