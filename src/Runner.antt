-- ===== src/Runner.antt =====
-- The standalone runner, runner.go.
pub mod PrefixWriter
pub mod Env
pub mod Startup
pub mod Supervisor
