-- ===== src/Onchain.antt =====
-- scripts/validators/onchain-validator.js
pub mod Rpc
pub mod Strings
pub mod Checks
pub mod Run
mod Examples
