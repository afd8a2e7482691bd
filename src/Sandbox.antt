-- ===== src/Sandbox.antt =====
-- The sandbox of Sandbox/: process tree, shared state, monitors, supervisor and hardening.
pub mod Logger
pub mod Sleep
pub mod Launch
pub mod ProcessTree
pub mod Supervisor
pub mod Options
pub mod Main
pub mod State
pub mod Filter
pub mod Landlock
pub mod Child
pub mod Cgroup
pub mod ProcFiles
pub mod Monitor
