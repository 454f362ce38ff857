-- ===== src/Backtest.antt =====
-- src/backtest/: the configuration of a backtest and its run.
pub mod Yaml
pub mod Fields
pub mod Config
pub mod Sections
pub mod Feeds
pub mod Customers
pub mod Load
pub mod Checked
pub mod Valid
mod Invariant
pub mod Safe
pub mod Declared
pub mod Accepts
pub mod App
pub mod Complete
pub mod Items
pub mod Buckets
pub mod Nodes
mod Tests
pub mod Active
mod RunTests
