-- ===== src/Host.antt =====
-- The host (host/src): the port router and the kernel that it carries.
pub mod Port
pub mod Tokens
pub mod Lanes
pub mod Arbiter
pub mod Tools
pub mod Audit
pub mod Graph
pub mod Kernel
pub mod Dispatch
pub mod Ops
pub mod Register
