-- ===== src/Monitor/Tick/Stages.antt =====
-- The stages of a tick of app/miner_monitor.py, by what each leaves of a miner as it was.
use miner_alerts.Base.{true, ℕ, ◌≡◌, true, Option, none, some, arith}
use miner_alerts.Monitor.State.{State, MinerState, Settings, Sample, Surroundings}
use miner_alerts.Monitor.Signal.{qa_sample}
use miner_alerts.Monitor.Hysteresis.{settle}
use miner_alerts.Monitor.Hysteresis.Streaks.{SameCore}
use miner_alerts.Monitor.Restart.{
  observe_uptime, note_reboot, expire_pending, flush_pending, reason_now,
}
use miner_alerts.Monitor.Policy.{Outcome, drop_old_reboots}
use miner_alerts.Monitor.Policy.Gates.{MayReboot, reboot_requires}
use miner_alerts.Monitor.Policy.Effects.{rebooted, Changes, auto_reboot_policy-Changes}
use miner_alerts.Monitor.Tick.{before_policy, after_policy, tick_miner}

-- The parts that the reboot bookkeeping does not touch.
pub record Aside (s t : MinerState) : Type 0 where
  pub core : SameCore s t
  pub manual : s.last_manual_reboot_ts ≡ t.last_manual_reboot_ts
  pub auto : s.last_auto_reboot_ts ≡ t.last_auto_reboot_ts
  pub times : s.auto_reboot_timestamps ≡ t.auto_reboot_timestamps
  pub timer : s.low_since_ts ≡ t.low_since_ts

note_reboot-Aside :
    (c : Settings) (now : ℕ) (m : Sample) (o : Option _) (s : MinerState)
    → Aside (note_reboot c now m o s).0 s
unfolding note_reboot
note_reboot-Aside c now m none s = ground arith
note_reboot-Aside c now m (some why) s = ground arith

expire_pending-Aside : (now : ℕ) (s : MinerState) → Aside (expire_pending now s) s
unfolding expire_pending
expire_pending-Aside now s = ground arith

flush_pending-Aside : (c : Settings) (now : ℕ) (s : MinerState) → Aside (flush_pending c now s).0 s
unfolding flush_pending
flush_pending-Aside c now s = ground arith

-- The reboots of a miner, and nothing else of it, are as they were.
pub record SameReboots (s t : MinerState) : Type 0 where
  pub manual : s.last_manual_reboot_ts ≡ t.last_manual_reboot_ts
  pub auto : s.last_auto_reboot_ts ≡ t.last_auto_reboot_ts
  pub times : s.auto_reboot_timestamps ≡ t.auto_reboot_timestamps

pub observe_uptime-SameCore :
    (now : ℕ) (m : Sample) (s : MinerState) → SameCore (observe_uptime now m s) s
unfolding observe_uptime
observe_uptime-SameCore now m s = ground arith

pub settled-SameReboots :
    (c : Settings) (now : ℕ) (m : Sample) (s : MinerState)
    → SameReboots (settle c now m (observe_uptime now m s)) s
unfolding settle observe_uptime
settled-SameReboots c now m s = ground arith

pub before_policy-Aside :
    (c : Settings) (w : Surroundings) (m : Sample) (s : MinerState)
    → Aside (before_policy c w m s).0 (settle c w.now_ts m (observe_uptime w.now_ts m s))
unfolding before_policy
before_policy-Aside c w m s =
    let settled = record (settle c w.now_ts m (observe_uptime w.now_ts m s)) {
      initialized = true;
    } in
    let noted = (note_reboot c w.now_ts m (reason_now m s) settled).0 in
    ground (
      arith,
      expire_pending-Aside w.now_ts noted,
      note_reboot-Aside c w.now_ts m (reason_now m s) settled,
    )

after_policy-Aside :
    (c : Settings) (w : Surroundings) (m : Sample) (previous : State) (r : Option _) (o : Outcome)
    → Aside (after_policy c w m previous r o).0 o.state
unfolding after_policy
after_policy-Aside c w m previous r o = ground (arith, flush_pending-Aside c w.now_ts o.state)

-- The state as the policy finds it.
abbrev pub ready : Settings → Surroundings → Sample → MinerState → MinerState
ready c w raw s = (before_policy c w (qa_sample c raw) s).0

-- The tick as the policy's outcome and what comes after it.
pub tick-outcome :
    (c : Settings) (w : Surroundings) (raw : Sample) (s : MinerState)
    → Aside (tick_miner c w raw s).state (tick_miner c w raw s).policy.state
      × Changes w.now_ts
          (drop_old_reboots c w.now_ts (ready c w raw s))
          (tick_miner c w raw s).policy
unfolding tick_miner
tick-outcome c w raw s = (
  after_policy-Aside _ _ _ _ _ _,
  auto_reboot_policy-Changes c w (qa_sample c raw) s.state (ready c w raw s),
)

-- A tick that sends a reboot passed every gate, at the state that the policy found.
pub tick-MayReboot :
    (c : Settings) (w : Surroundings) (raw : Sample) (s : MinerState)
    → rebooted (tick_miner c w raw s).policy.actions ≡ true
    → MayReboot c w (qa_sample c raw) (ready c w raw s)
unfolding tick_miner
tick-MayReboot c w raw s h =
    reboot_requires c w (qa_sample c raw) s.state (ready c w raw s)
      ((tick-outcome c w raw s).1.sent h)
