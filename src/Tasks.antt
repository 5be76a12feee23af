-- ===== src/Tasks.antt =====
-- The Hardhat tasks and scripts, a module each.
pub mod Ccip
pub mod Ownership
pub mod Ratio
pub mod Signatures
pub mod Setup
pub mod Upgrade
pub mod Deploy
pub mod Config
pub mod Small
mod Examples
