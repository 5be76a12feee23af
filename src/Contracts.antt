-- ===== src/Contracts.antt =====
-- The Solidity contracts and libraries, a module each.
pub mod Context
pub mod RateLimits
pub mod FeeUtils
pub mod Abi
pub mod Actions
pub mod Oracle
pub mod Bascule
pub mod Consortium
pub mod Gmp
pub mod Mailbox
pub mod Bridge
pub mod Gateway
pub mod Blacklist
mod Examples
