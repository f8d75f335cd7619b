-- ===== src/RestartIntelligence/Examples.antt =====
-- Concrete restarts for app/restart_intelligence.py, with times in seconds.
use miner_alerts.Base.{String, ◌≡◌, ◌↔◌, none, some}
use miner_alerts.RestartIntelligence.{unexpected, classify_restart}
use miner_alerts.RestartIntelligence.Attribution.{Explained, unexpected_iff}

abbrev drop : String
drop = "elapsed_drop"

-- The last manual action lies too far back.
unexpected_iff_example :
    ((classify_restart drop 5000 (some 1000) none 900 10).classification ≡ unexpected)
    ↔ (¬ Explained 5000 900 10 (some 1000) × ¬ Explained 5000 900 10 none)
unexpected_iff_example = unexpected_iff drop 5000 900 10 (some 1000) none
