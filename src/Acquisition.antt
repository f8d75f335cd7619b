-- ===== src/Acquisition.antt =====
-- app/acquisition.py: the polling of the miners' API within a deadline.
pub mod Config
pub mod Registry
pub mod Scheduler
pub mod Json
pub mod Sample
pub mod PollHealth
pub mod Worker
pub mod Collect
pub mod Dispatch
mod Examples
