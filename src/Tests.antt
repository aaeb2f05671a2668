-- ===== src/Tests.antt =====
-- Runs at concrete inputs, and instances of the theorems there.
mod Engine
mod Templates
mod EngineRuns
mod Readings
mod Runner
mod Startup
mod Api
mod Daemon
mod Vms
mod Routes
mod Proxy
