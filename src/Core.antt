-- ===== src/Core.antt =====
-- soulon-wallet/src/core and soulon-wallet/src/config: the wallet library's core.
pub mod Errors
pub mod Types
pub mod Effects
pub mod Broadcast
pub mod Nonce
pub mod Poll
pub mod Account
pub mod Identity
pub mod Network
pub mod Bip21
