-- ===== src/Monitor/Persist.antt =====
-- `save_state` and `load_state` in app/miner_monitor.py. Writing the file and parsing it are left out:
-- what is written is a JSON value, and so is what is read. Every exception ends in the same result.
pub mod RoundTrip
use miner_alerts.Base.{
  ℕ, ◌*◌, Bool, false, Option, none, some, List, [], ◌∷◌, String, if◌then◌else◌,
}
use miner_alerts.Base.Int.{ℤ, pos, ltb_ℤ}
use miner_alerts.Base.Float.{Float, fin}
use miner_alerts.Base.Value.{unit}
use miner_alerts.Base.Dict.{Dict}
use miner_alerts.Base.Json.{
  Json, null, boolean, integer, real, text, list, dict, Items, end, item, Entries, empty, entry,
  Conversions, get, or_null, to_float, to_int, truth,
}
use miner_alerts.Monitor.State.{
  State, ok, low, offline, hashboard, RebootReason, elapsed_drop, elapsed_reset, MinerState,
}

-- Writing.

abbrev pub state_text : State → String
state_text ok = "OK"
state_text low = "LOW"
state_text offline = "OFFLINE"
state_text hashboard = "HASHBOARD"

abbrev pub reason_text : Option RebootReason → String
reason_text none = ""
reason_text (some elapsed_drop) = "elapsed_drop"
reason_text (some elapsed_reset) = "elapsed_reset"

abbrev pub count_json : ℕ → Json
count_json n = integer (pos n)

abbrev pub time_json : ℕ → Json
time_json n = real (fin (pos n))

abbrev pub optional_json : (ℕ → Json) → Option ℕ → Json
optional_json f none = null
optional_json f (some n) = f n

unfoldable pub time_items : List ℕ → Items
time_items [] = end
time_items (t ∷ ts) = item (time_json t) (time_items ts)

unfoldable pub saved_miner : MinerState → Entries
unfolding time_items
saved_miner s = entry "state" (text (state_text s.state)) (
    entry "low_streak" (count_json s.low_streak) (
      entry "offline_streak" (count_json s.offline_streak) (
        entry "ok_streak" (count_json s.ok_streak) (
          entry "initialized" (boolean s.initialized) (
            entry "last_elapsed" (optional_json count_json s.last_elapsed) (
              entry "last_seen_ts" (time_json s.last_seen_ts) (
                entry "reboot_pending_until" (time_json s.reboot_pending_until)
                  (pending_and_times s))))))))
  where
    limits : MinerState → Entries
    limits s = entry "auto_reboot_timestamps" (list (time_items s.auto_reboot_timestamps)) (
        entry "degraded_mode" (boolean s.degraded_mode)
          (entry "last_hourly_status_ts" (optional_json time_json s.last_hourly_status_ts) empty))

    pending_and_times : MinerState → Entries
    pending_and_times s =
        entry "reboot_pending_reason" (text (reason_text s.reboot_pending_reason)) (
          entry "reboot_pending_elapsed" (optional_json count_json s.reboot_pending_elapsed) (
            entry "last_reboot_ts" (time_json s.last_reboot_ts) (
              entry "low_since_ts" (optional_json time_json s.low_since_ts) (
                entry "last_manual_reboot_ts" (optional_json time_json s.last_manual_reboot_ts) (
                  entry "last_auto_reboot_ts" (optional_json time_json s.last_auto_reboot_ts)
                    (limits s))))))

unfoldable pub saved_states : Dict MinerState → Entries
unfolding saved_miner
saved_states [] = empty
saved_states ((key, s) ∷ states) = entry key (dict (saved_miner s)) (saved_states states)

-- `payload` in `save_state`; `now` is `now_str()`.
unfoldable pub save_state : String → Dict MinerState → Option ℤ → Entries
unfolding saved_states
save_state now states last_update_id = entry "saved_at" (text now) (
    entry "last_update_id" (update_json last_update_id)
      (entry "states" (dict (saved_states states)) empty))
  where
    update_json : Option ℤ → Json
    update_json none = null
    update_json (some z) = integer z

-- Reading.

-- A `MinerState` as the file may give one: what is not converted is any JSON value.
pub record StoredMiner : Type 0 where
  pub low_streak : ℤ
  pub offline_streak : ℤ
  pub ok_streak : ℤ
  pub state : String
  pub initialized : Bool
  pub last_elapsed : Json
  pub last_seen_ts : Float
  pub reboot_pending_until : Float
  pub reboot_pending_reason : String
  pub reboot_pending_elapsed : Json
  pub last_reboot_ts : Float
  pub low_since_ts : Option Float
  pub last_manual_reboot_ts : Option Float
  pub last_auto_reboot_ts : Option Float
  pub auto_reboot_timestamps : List Float
  pub degraded_mode : Bool
  pub last_hourly_status_ts : Option Float

-- Python's conversions, `str(v)`, and how long before now the time of a text is; `none` is an exception of
-- `strptime`.
pub record Reader : Type 0 where
  pub conversions : Conversions
  pub shown : Json → String
  pub age : Json → Option ℤ

infixl 5 ◌>>=◌
abbrev ◌>>=◌ {ℓ κ} : {A : Type ℓ} {B : Type κ} → Option A → (A → Option B) → Option B
none >>= f = none
some a >>= f = f a

-- `data.get(key, default)`
abbrev or_default : Json → Option Json → Json
or_default v none = v
or_default v (some w) = w

-- `float(v) if v is not None else None`
abbrev pub optional_time : Conversions → Json → Option (Option Float)
optional_time c null = some none
optional_time c v = to_float c v >>= λ x. some (some x)

abbrev add_time : Option Float → List Float → List Float
add_time none xs = xs
add_time (some x) xs = x ∷ xs

-- The loop over `raw_auto`.
unfoldable pub read_times : Conversions → Items → List Float
read_times c end = []
read_times c (item v js) = add_time (to_float c v) (read_times c js)

abbrev times_of : Conversions → Option Json → List Float
times_of c (some (list js)) = read_times c js
times_of c _ = []

unfoldable pub load_miner : Reader → Entries → Option StoredMiner
unfolding read_times to_float to_int truth get
load_miner r d = do
  failed ← to_int r.conversions (or_default (integer (pos 0)) (get "offline_streak" d))
  answered ← to_int r.conversions (or_default (integer (pos 0)) (get "ok_streak" d))
  seen ← to_float r.conversions (or_default (time_json 0) (get "last_seen_ts" d))
  until ← to_float r.conversions (or_default (time_json 0) (get "reboot_pending_until" d))
  rebooted ← to_float r.conversions (or_default (time_json 0) (get "last_reboot_ts" d))
  manual ← optional_time r.conversions (or_null (get "last_manual_reboot_ts" d))
  automatic ← optional_time r.conversions (or_null (get "last_auto_reboot_ts" d))
  hourly ← optional_time r.conversions (or_null (get "last_hourly_status_ts" d))
  some (record {
    low_streak = pos 0;
    offline_streak = failed;
    ok_streak = answered;
    state = r.shown (or_default (text "OK") (get "state" d));
    initialized = truth (or_default (boolean false) (get "initialized" d));
    last_elapsed = or_null (get "last_elapsed" d);
    last_seen_ts = seen;
    reboot_pending_until = until;
    reboot_pending_reason = r.shown (or_default (text "") (get "reboot_pending_reason" d));
    reboot_pending_elapsed = or_null (get "reboot_pending_elapsed" d);
    last_reboot_ts = rebooted;
    low_since_ts = none;
    last_manual_reboot_ts = manual;
    last_auto_reboot_ts = automatic;
    auto_reboot_timestamps = times_of r.conversions (get "auto_reboot_timestamps" d);
    degraded_mode = truth (or_default (boolean false) (get "degraded_mode" d));
    last_hourly_status_ts = hourly;
  })

-- A value that is no dict has no `get`.
abbrev load_entry : Reader → Json → Option StoredMiner
load_entry r (dict d) = load_miner r d
load_entry r _ = none

unfoldable pub load_states : Reader → Entries → Option (Dict StoredMiner)
unfolding load_miner
load_states r empty = some []
load_states r (entry key v d) = do
  s ← load_entry r v
  states ← load_states r d
  some ((key, s) ∷ states)

abbrev pub stale_after : ℕ
stale_after = 48 * 3600 * unit

abbrev pub Loaded : Type 0
Loaded = Dict StoredMiner × Option ℤ

abbrev states_in : Reader → Option Json → Option (Dict StoredMiner)
states_in r none = some []
states_in r (some (dict d)) = load_states r d
states_in r (some _) = none

abbrev pub update_id : Conversions → Json → Option (Option ℤ)
update_id c null = some none
update_id c v = to_int c v >>= λ z. some (some z)

-- What is made of a file that is not stale.
unfoldable pub load_payload : Reader → Entries → Option Loaded
unfolding load_states to_int get
load_payload r d = do
  states ← states_in r (get "states" d)
  update ← update_id r.conversions (or_null (get "last_update_id" d))
  some (states, update)

-- Whether the states are stale; without a time they never are.
unfoldable pub too_old : Reader → Json → Option Bool
unfolding truth
too_old r saved_at =
    if truth saved_at
    then (r.age saved_at >>= λ a. some (ltb_ℤ (pos stale_after) a))
    else some false

pub data StateFile : Type 0 where
  missing unparsed : StateFile
  parsed : Json → StateFile

abbrev nothing_loaded : Loaded
nothing_loaded = ([], none)

abbrev pub or_nothing : Option Loaded → Loaded
or_nothing none = nothing_loaded
or_nothing (some l) = l

unfoldable pub load_state : Reader → StateFile → Loaded
unfolding load_payload too_old
load_state r (parsed (dict d)) = or_nothing (do
  stale ← too_old r (or_null (get "saved_at" d))
  if stale then some nothing_loaded else load_payload r d)
load_state r _ = nothing_loaded
