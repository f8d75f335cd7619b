-- ===== src/Monitor/Persist/RoundTrip.antt =====
-- What a restart of app/miner_monitor.py keeps of the states that it saved.
use miner_alerts.Base.{
  ℕ, ◌≡◌, refl, Bool, false, true, same_text, if◌then◌else◌, Option, none, some, List, [], ◌∷◌,
  String,
}
use miner_alerts.Base.Int.{ℤ, pos, ltb_ℤ}
use miner_alerts.Base.Float.{Float, fin}
use miner_alerts.Base.Dict.{Dict}
use miner_alerts.Base.Json.{text, dict, Conversions, get, to_float, to_int, truth}
use miner_alerts.Monitor.State.{MinerState}
use miner_alerts.Monitor.Persist.{
  StoredMiner, Reader, state_text, reason_text, optional_json, count_json, time_json, time_items,
  saved_miner, saved_states, save_state, read_times, load_miner, load_states, optional_time,
  load_payload, too_old, stale_after, parsed, load_state, Loaded, or_nothing,
}

abbrev pub stored_time : ℕ → Float
stored_time n = fin (pos n)

abbrev pub stored_times : List ℕ → List Float
stored_times [] = []
stored_times (t ∷ ts) = stored_time t ∷ stored_times ts

abbrev pub optional_stored : Option ℕ → Option Float
optional_stored none = none
optional_stored (some n) = some (stored_time n)

-- A miner's state after a restart: the LOW streak and the LOW timer start anew, all else is kept.
abbrev pub restored : MinerState → StoredMiner
restored s = record {
  low_streak = pos 0;
  offline_streak = pos s.offline_streak;
  ok_streak = pos s.ok_streak;
  state = state_text s.state;
  initialized = s.initialized;
  last_elapsed = optional_json count_json s.last_elapsed;
  last_seen_ts = stored_time s.last_seen_ts;
  reboot_pending_until = stored_time s.reboot_pending_until;
  reboot_pending_reason = reason_text s.reboot_pending_reason;
  reboot_pending_elapsed = optional_json count_json s.reboot_pending_elapsed;
  last_reboot_ts = stored_time s.last_reboot_ts;
  low_since_ts = none;
  last_manual_reboot_ts = optional_stored s.last_manual_reboot_ts;
  last_auto_reboot_ts = optional_stored s.last_auto_reboot_ts;
  auto_reboot_timestamps = stored_times s.auto_reboot_timestamps;
  degraded_mode = s.degraded_mode;
  last_hourly_status_ts = optional_stored s.last_hourly_status_ts;
}

abbrev pub restored_states : Dict MinerState → Dict StoredMiner
restored_states [] = []
restored_states ((key, s) ∷ states) = (key, restored s) ∷ restored_states states

-- What `str` does to a text.
abbrev pub KeepsTexts : Reader → Type 0
KeepsTexts r = (t : String) → r.shown (text t) ≡ t

read_times_back : (c : Conversions) (ts : List ℕ) → read_times c (time_items ts) ≡ stored_times ts
unfolding read_times time_items to_float
read_times_back c [] = refl
read_times_back c (t ∷ ts) = rw (read_times_back c ts) refl

optional_time_back :
    (c : Conversions) (o : Option ℕ)
    → optional_time c (optional_json time_json o) ≡ some (optional_stored o)
unfolding to_float
optional_time_back c none = refl
optional_time_back c (some n) = refl

load_miner_back :
    (r : Reader)
    → KeepsTexts r
    → (s : MinerState) → load_miner r (saved_miner s) ≡ some (restored s)
unfolding load_miner saved_miner get to_int to_float truth
load_miner_back r h s =
    rw
      (
        optional_time_back r.conversions s.last_manual_reboot_ts,
        optional_time_back r.conversions s.last_auto_reboot_ts,
        optional_time_back r.conversions s.last_hourly_status_ts,
        read_times_back r.conversions s.auto_reboot_timestamps,
        h (state_text s.state),
        h (reason_text s.reboot_pending_reason),
      )
      refl

load_states_back :
    (r : Reader)
    → KeepsTexts r
    → (states : Dict MinerState)
    → load_states r (saved_states states) ≡ some (restored_states states)
unfolding load_states saved_states
load_states_back r h [] = refl
load_states_back r h ((key, s) ∷ states) =
    rw (load_miner_back r h s, load_states_back r h states) refl

load_payload_back :
    (r : Reader)
    → KeepsTexts r
    → (now : String) (states : Dict MinerState) (u : Option ℤ)
    → load_payload r (save_state now states u) ≡ some (restored_states states, u)
unfolding load_payload save_state get to_int
load_payload_back r h now states none = rw (load_states_back r h states) refl
load_payload_back r h now states (some z) = rw (load_states_back r h states) refl

saved_at_back :
    (now : String) (states : Dict MinerState) (u : Option ℤ)
    → get "saved_at" (save_state now states u) ≡ some (text now)
unfolding get save_state
saved_at_back now states u = refl

too_old-text :
    (r : Reader) (now : String) (a : ℤ)
    → same_text now "" ≡ false
    → r.age (text now) ≡ some a
    → too_old r (text now) ≡ some (ltb_ℤ (pos stale_after) a)
unfolding too_old truth
too_old-text r now a h e = rw (h, e) refl

or_nothing-if :
    (b : Bool) (x y : Loaded) → or_nothing (if b then some x else some y) ≡ (if b then x else y)
or_nothing-if true x y = refl
or_nothing-if false x y = refl

-- States that were saved are loaded with all that they held but the LOW streak and the LOW timer, and
-- with the id of the last update; if they were saved more than 48 hours ago, nothing is loaded. The
-- text of the time is not empty, and `str` keeps a text.
pub load_state_back :
    (r : Reader)
    → KeepsTexts r
    → (now : String) (states : Dict MinerState) (u : Option ℤ) (a : ℤ) → same_text now "" ≡ false
    → r.age (text now) ≡ some a
    → load_state r (parsed (dict (save_state now states u)))
      ≡ (if ltb_ℤ (pos stale_after) a then ([], none) else (restored_states states, u))
unfolding load_state
load_state_back r h now states u a filled e =
    rw
      (
        saved_at_back now states u,
        too_old-text r now a filled e,
        load_payload_back r h now states u,
      )
      (or_nothing-if (ltb_ℤ (pos stale_after) a) ([], none) (restored_states states, u))
