-- ===== src/Monitor/Tick/Silence.antt =====
-- What app/miner_monitor.py does not report of a tick that the policy ends with `continue`.
use miner_alerts.Base.{◌≡◌, none}
use miner_alerts.Monitor.State.{MinerState, Settings, Sample, Surroundings}
use miner_alerts.Monitor.Signal.{qa_sample}
use miner_alerts.Monitor.Policy.Gates.{MayReboot}
use miner_alerts.Monitor.Policy.Refusals.{IsSustained, refusal_stops}
use miner_alerts.Monitor.Tick.{after_policy, tick_miner}
use miner_alerts.Monitor.Tick.Stages.{ready}

-- A miner that is LOW for the sustained time, past the startup guard and clear of the interlocks,
-- but whose reboot the cooldown, the window or QA mode refuses, is not shown to the episode
-- coordinator in that tick, and its change of state in that tick is not recorded.
pub refused_unobserved :
    (c : Settings) (w : Surroundings) (raw : Sample) (s : MinerState)
    → IsSustained c w (qa_sample c raw) (ready c w raw s)
    → ¬ MayReboot c w (qa_sample c raw) (ready c w raw s)
    → ((tick_miner c w raw s).observation ≡ none) × ((tick_miner c w raw s).transition ≡ none)
unfolding tick_miner after_policy
refused_unobserved c w raw s h refused =
    let stops = refusal_stops c w (qa_sample c raw) s.state (ready c w raw s) h refused in
    (rw stops, rw stops)
