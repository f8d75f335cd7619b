-- ===== src/Liveness.antt =====
-- app/liveness.py: the watchdog's assessment of the monitor, and its notifications.
pub mod Assess
pub mod Notify
pub mod Health
pub mod Incidents
mod Examples
