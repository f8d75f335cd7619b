-- ===== src/Monitor/Examples/States.antt =====
-- A miner that is saved and loaded by app/miner_monitor.py.
use miner_alerts.Base.{◌*◌, ◌≡◌, refl, none, some, [], ◌∷◌, String}
use miner_alerts.Base.Int.{pos}
use miner_alerts.Base.Float.{fin}
use miner_alerts.Base.Value.{unit}
use miner_alerts.Base.Dict.{Dict}
use miner_alerts.Base.Json.{
  Json, null, integer, text, dict, item, end, entry, empty, to_float, to_int, truth, get,
}
use miner_alerts.Monitor.State.{MinerState}
use miner_alerts.Monitor.Persist.{
  Reader, save_state, load_state, parsed, load_payload, load_states, load_miner, read_times,
  too_old,
}
use miner_alerts.Monitor.Persist.RoundTrip.{restored_states, load_state_back}
use miner_alerts.Monitor.Examples.{low_miner, minutes}

abbrev reader : Reader
reader = record {
  conversions = record { float_text = λ t. none; int_text = λ t. none; lower_str = λ v. "" };
  shown = shown_text;
  age = λ v. some (pos (minutes 5));
}
  where
    shown_text : Json → String
    shown_text (text t) = t
    shown_text _ = ""

abbrev saved : Dict MinerState
saved = ("10.0.0.1:4028", low_miner) ∷ []

load_state_back_example :
    load_state reader (parsed (dict (save_state "2024-05-01 10:00:00" saved (some (pos 7)))))
    ≡ (restored_states saved, some (pos 7))
load_state_back_example =
    load_state_back reader (λ t. refl) "2024-05-01 10:00:00" saved (some (pos 7)) (pos (minutes 5))
      refl refl

-- A streak that is no number spoils the whole file.
spoiled :
    load_state reader (
      parsed (
        dict (entry "states" (dict (entry "m" (dict (entry "ok_streak" null empty)) empty)) empty)))
    ≡ ([], none)
unfolding load_state load_payload load_states load_miner too_old to_int truth get
spoiled = refl

-- Times that are no numbers are left out.
kept_times :
    read_times reader.conversions (item (text "x") (item (integer (pos 3)) end))
    ≡ fin (pos (3 * unit)) ∷ []
unfolding read_times to_float
kept_times = refl
