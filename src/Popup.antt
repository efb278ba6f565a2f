-- ===== src/Popup.antt =====
-- wallet-extension/src/popup: the browser extension's popup.
pub mod Types
pub mod Store
pub mod Screens
pub mod Html
pub mod Controller
pub mod Render
