-- ===== src/Daemon/Vms.antt =====
-- The virtual machines of the daemon, daemon/vms/*.go.
pub mod Config
pub mod Create
pub mod Lifecycle
pub mod Platform
pub mod Queries
pub mod Template
pub mod Xml
