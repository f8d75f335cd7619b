-- ===== src/MetricsSnapshot.antt =====
-- app/metrics_snapshot.py: the snapshot of the monitor's metrics, and how one is read back.
pub mod Schema
pub mod Validate
pub mod Miners
pub mod RoundTrip
pub mod Load
mod Examples
