-- ===== src/StabilityProfile.antt =====
-- app/stability_profile.py: the assessment of a miner against its own past samples.
pub mod Bands
pub mod Analyze
pub mod Verdict
mod Examples
