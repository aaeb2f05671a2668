-- ===== src/Daemon.antt =====
-- The daemon, daemon/*.go.
pub mod Api
pub mod Auth
pub mod Info
pub mod Iso
pub mod Ports
pub mod Routes
pub mod Services
pub mod Shell
pub mod Tunnels
pub mod Vms
