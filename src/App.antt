-- ===== src/App.antt =====
-- The desktop application, crates/vault-app.
pub mod State
pub mod Dialog
pub mod Orderly
pub mod Submit
pub mod Shell
pub mod Registered
pub mod Main
pub mod Setup
