-- ===== src/Monitor/Examples/Answers.antt =====
-- Answers of a miner as app/miner_monitor.py reads them.
use miner_alerts.Base.{◌≡◌, refl, true, none, some}
use miner_alerts.Base.Int.{pos}
use miner_alerts.Base.Float.{fin, pos_inf}
use miner_alerts.Base.Json.{
  Json, integer, real, list, dict, item, end, Entries, entry, empty, Conversions, get, truth,
  to_int,
}
use miner_alerts.Acquisition.Registry.{authoritative}
use miner_alerts.Acquisition.Sample.{Subject, normalize_summary, with_stats}
use miner_alerts.Monitor.Reading.{
  raised, returned, read_summary, read_stats_snapshot, read_first, caught_int, read_entries_boards,
  read_active_boards, count_listed, board_counts,
}
use miner_alerts.Monitor.Reading.Polled.{SameSummary, SameBoards, answer, polled_as_read}

abbrev conversions : Conversions
conversions = record { float_text = λ t. none; int_text = λ t. none; lower_str = λ v. "ok" }

abbrev subject : Subject
subject = record { miner_key = "m1"; authority = authoritative; epoch_id = 1; observed_ts = 5 }

abbrev summary_with : Json → Entries
summary_with elapsed =
    entry "SUMMARY"
      (list
        (item (dict (entry "GHS 5s" (integer (pos 95000)) (entry "Elapsed" elapsed empty))) end))
      empty

abbrev stats : Entries
stats =
    entry "STATS"
      (list (item (dict empty) (item (dict (entry "chain_acn0" (integer (pos 77)) empty)) end)))
      empty

polled_as_read_example :
    SameSummary (read_summary conversions (dict (summary_with (integer (pos 60))))) (
      normalize_summary conversions subject
        (answer (summary_with (integer (pos 60))) (fin (pos 9)) (fin (pos 40))))
    × SameBoards
        (read_stats_snapshot conversions (dict stats))
        (with_stats conversions
          (normalize_summary conversions subject
            (answer (summary_with (integer (pos 60))) (fin (pos 9)) (fin (pos 40))))
          (answer stats (fin (pos 14)) (fin (pos 30)))).active_boards
polled_as_read_example =
    polled_as_read conversions subject (summary_with (integer (pos 60))) stats (fin (pos 9))
      (fin (pos 40)) (fin (pos 14)) (fin (pos 30))

one_board : read_stats_snapshot conversions (dict stats) ≡ returned (some 1, true)
unfolding read_stats_snapshot read_entries_boards read_active_boards count_listed board_counts
    caught_int to_int truth get
one_board = refl

-- An uptime that is infinite ends the reading with an exception.
infinite_uptime : read_summary conversions (dict (summary_with (real pos_inf))) ≡ raised
unfolding read_summary read_first caught_int truth get
infinite_uptime = refl
