-- ===== src/AlertEpisodes.antt =====
-- app/alert_episodes.py: the notification episodes of irregular miners.
pub mod Episode
pub mod Coordinator
pub mod PopDue
pub mod History
pub mod Active
pub mod Bounded
pub mod Recovery
pub mod Batches
mod Examples
