-- ===== src/Engine.antt =====
-- The automation engine, automation-engine/*.go: one child for each file.
pub mod Context
pub mod Condition
pub mod Trigger
pub mod Action
pub mod Automation
pub mod Server
pub mod Refresh
pub mod Run
pub mod Startup
pub mod Main
pub mod Alerts
