-- ===== src/Monitor/Reading.antt =====
-- `read_summary` and `read_stats_snapshot` in app/miner_monitor.py: what is read from the answers of a
-- miner that is asked alone. `_read_command`, which asks it, is given by the value that it returns. The
-- keys of the boards and the rates are those that app/acquisition.py reads too.
pub mod Agreement
pub mod Polled
use miner_alerts.Base.{
  ℕ, Bool, true, false, Option, none, some, List, [], ◌∷◌, String, if◌then◌else◌,
}
use miner_alerts.Base.Int.{ℤ}
use miner_alerts.Base.Float.{Float, neg_inf, pos_inf, times_float}
use miner_alerts.Base.Json.{
  Json, null, boolean, integer, real, text, list, dict, Items, end, item, Entries, empty, entry,
  Conversions, get, or_null, to_float, to_int, truth,
}
use miner_alerts.Acquisition.Json.{
  BoardKeys, all_boards, positive_int, alive_status, add_board, count_positive,
}

-- The result of a call; `raised` is an exception that the function does not catch.
pub data Result {ℓ} (A : Type ℓ) : Type ℓ where
  raised : Result A
  returned : A → Result A

infixl 5 ◌>>=◌
abbrev pub ◌>>=◌ {ℓ κ} : {A : Type ℓ} {B : Type κ} → Result A → (A → Result B) → Result B
raised >>= f = raised
returned a >>= f = f a

-- `int(value)` where TypeError and ValueError are caught; the OverflowError of an infinity is not.
unfoldable pub caught_int : Conversions → Json → Result (Option ℤ)
unfolding to_int
caught_int c (real neg_inf) = raised
caught_int c (real pos_inf) = raised
caught_int c v = returned (to_int c v)

-- Rates are in millionths of a millionth of a TH/s.
abbrev pub scaled : ℕ → Option Float → Option Float
scaled factor none = none
scaled factor (some x) = some (times_float factor x)

abbrev pub converted : Conversions → ℕ → Option Json → Option Float
converted c factor none = none
converted c factor (some v) = scaled factor (to_float c v)

abbrev pub or_next : Option Float → Option Float → Option Float
or_next (some x) o = some x
or_next none o = o

unfoldable pub first_present_rate : Conversions → Entries → List (String × ℕ) → Option Float
first_present_rate c d [] = none
first_present_rate c d ((key, factor) ∷ keys) =
    or_next (converted c factor (get key d)) (first_present_rate c d keys)

abbrev pub rate_keys : List (String × ℕ)
rate_keys = ("GHS 5s", 1000) ∷ ("GHS av", 1000) ∷ ("MHS 5s", 1) ∷ ("MHS av", 1) ∷ []

pub record Summary : Type 0 where
  pub rate_ths : Option Float
  pub elapsed : Option ℤ
  pub responded : Bool
  pub entry : Option Json

abbrev pub no_summary : Summary
no_summary = record { rate_ths = none; elapsed = none; responded = false; entry = none }

abbrev pub elapsed_of : Conversions → Option Json → Result (Option ℤ)
elapsed_of c none = returned none
elapsed_of c (some v) = caught_int c v

-- The first entry: in a list or a text every key fails, in a number or null the first test.
unfoldable pub read_first : Conversions → Json → Result Summary
unfolding caught_int first_present_rate get
read_first c (dict d) = do
  elapsed ← elapsed_of c (get "Elapsed" d)
  returned (record {
    rate_ths = first_present_rate c d rate_keys;
    elapsed = elapsed;
    responded = true;
    entry = some (dict d);
  })
read_first c (list js) =
    returned (record { rate_ths = none; elapsed = none; responded = true; entry = some (list js) })
read_first c (text t) =
    returned (record { rate_ths = none; elapsed = none; responded = true; entry = some (text t) })
read_first c _ = raised

-- `summary[0]` of a value that is true; the first character of a text is as good as the text here.
abbrev pub read_entries : Conversions → Json → Result Summary
read_entries c (list (item v js)) = read_first c v
read_entries c (text t) = read_first c (text t)
read_entries c _ = raised

abbrev pub read_true : Conversions → Json → Result Summary
read_true c v = if truth v then read_entries c v else returned no_summary

-- `read_summary`, for what `_read_command` returns.
unfoldable pub read_summary : Conversions → Json → Result Summary
unfolding read_first truth get
read_summary c (dict d) =
    if truth (dict d) then read_true c (or_null (get "SUMMARY" d)) else returned no_summary
read_summary c v = if truth v then raised else returned no_summary

-- The boards.

abbrev pub works : Result (Option ℤ) → Result (Option Bool)
works raised = raised
works (returned o) = returned (some (positive_int o))

abbrev pub status_works : Conversions → Option Json → Result (Option Bool)
status_works c none = returned none
status_works c (some v) = returned (some (alive_status (c.lower_str v)))

abbrev pub works_or : Conversions → Option Json → Result (Option Bool) → Result (Option Bool)
works_or c none next = next
works_or c (some v) next = works (caught_int c v)

unfoldable pub board_counts : Conversions → Entries → BoardKeys → Result (Option Bool)
unfolding caught_int get
board_counts c d k =
    works_or c (get k.acn d)
      (works_or c (get k.asicnum d) (works_or c (get k.alive d) (status_works c (get k.status d))))

-- The loop over the boards.
unfoldable pub count_listed : Conversions → Entries → List BoardKeys → Result (Option ℕ)
unfolding board_counts
count_listed c d [] = returned none
count_listed c d (k ∷ ks) = do
  b ← board_counts c d k
  n ← count_listed c d ks
  returned (add_board b n)

abbrev pub chains_or_listed : Conversions → Entries → Option Json → Result (Option ℕ)
chains_or_listed c d (some (list js)) = returned (some (count_positive js))
chains_or_listed c d _ = count_listed c d all_boards

-- `_count_active_boards`
unfoldable pub read_active_boards : Conversions → Entries → Result (Option ℕ)
unfolding count_listed count_positive get
read_active_boards c d = chains_or_listed c d (get "chain_acn" d)

abbrev pub or_rest : Option ℕ → Result (Option ℕ) → Result (Option ℕ)
or_rest (some n) rest = returned (some n)
or_rest none rest = rest

-- The loop over the entries, which ends at the first that counts its boards.
unfoldable pub read_entries_boards : Conversions → Items → Result (Option ℕ)
unfolding read_active_boards
read_entries_boards c end = returned none
read_entries_boards c (item (dict d) js) =
    let rest = read_entries_boards c js in (read_active_boards c d >>= λ o. or_rest o rest)
read_entries_boards c (item v js) = read_entries_boards c js

abbrev pub entries_in : Json → Items
entries_in (list js) = js
entries_in v = item v end

-- The boards and `responded`.
abbrev pub Stats : Type 0
Stats = Option ℕ × Bool

abbrev pub read_stats_true : Conversions → Json → Result Stats
read_stats_true c v =
    if truth v
    then (read_entries_boards c (entries_in v) >>= λ o. returned (o, true))
    else returned (none, true)

-- `read_stats_snapshot` without the answer itself, which it returns too.
unfoldable pub read_stats_snapshot : Conversions → Json → Result Stats
unfolding read_entries_boards truth get
read_stats_snapshot c (dict d) =
    if truth (dict d) then read_stats_true c (or_null (get "STATS" d)) else returned (none, false)
read_stats_snapshot c v = if truth v then raised else returned (none, false)
