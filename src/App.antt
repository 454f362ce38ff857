-- ===== src/App.antt =====
-- src/app/app.cpp: what the application loads from its database, and how it starts and stops.
pub mod Rows
pub mod Loaders
pub mod Database
pub mod Lifecycle
pub mod Stops
pub mod Ends
pub mod Agrees
pub mod Webhooks
pub mod Provision
mod Tests
mod RowTests
