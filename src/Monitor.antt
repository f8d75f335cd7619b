-- ===== src/Monitor.antt =====
-- app/miner_monitor.py: what one tick of `main` does to each miner, and the automatic reboots.
pub mod State
pub mod Signal
pub mod Hysteresis
pub mod Restart
pub mod Policy
pub mod Tick
pub mod Persist
pub mod Reading
mod Examples
