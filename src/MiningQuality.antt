-- ===== src/MiningQuality.antt =====
-- app/mining_quality.py: the assessment of a miner's shares and chains from its stored samples.
pub mod Delta
pub mod Analyze
pub mod Intervals
pub mod Verdict
mod Examples
