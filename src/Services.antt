-- ===== src/Services.antt =====
-- soulon-wallet/src/services: the transactions that the wallet builds, validates and broadcasts.
pub mod Sending
pub mod Checks
pub mod Staking
pub mod Governance
pub mod Transfer
pub mod Ibc
pub mod Authz
mod Tests
