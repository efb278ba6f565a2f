-- ===== src/App.antt =====
-- wallet-app/src: the web application's access to the backend.
pub mod Errors
pub mod Client
pub mod Export
pub mod PaymentForm
pub mod Csv
pub mod Session
pub mod Login
pub mod WalletApi
pub mod EventsState
pub mod EventsPage
pub mod HomePage
pub mod EventDetailPage
mod Tests
mod PageTests
mod ListTests
