-- ===== src/Monitor/Reading/Polled.antt =====
-- That a miner that is asked alone by app/miner_monitor.py and one that is polled by
-- app/acquisition.py are read alike.
use miner_alerts.Base.{
  ℕ, ◌≡◌, refl, sym, ◌∙◌, subst, Bool, if◌then◌else◌, true, false, Option, none, some, String,
}
use miner_alerts.Base.Int.{ℤ}
use miner_alerts.Base.Float.{Float}
use miner_alerts.Base.Json.{
  Json, null, boolean, integer, real, text, list, dict, Items, end, item, Entries, empty, entry,
  Conversions, get, or_null, to_int, truth,
}
use miner_alerts.Acquisition.Json.{extract_rate_ths, board_works, count_boards, count_active_boards}
use miner_alerts.Acquisition.Sample.{
  first_dict, first_entry, first_count, boards_in, if_counted, entries_of, MinerSampleEnvelope,
  Subject, TransportOutcome, answered, base_envelope, summarized, rated, normalize_summary,
  with_payload, with_stats, success, successful,
}
use miner_alerts.Monitor.Reading.{
  Result, raised, returned, rate_keys, Summary, read_first, read_summary, ◌>>=◌, read_stats_true,
  read_true, no_summary, elapsed_of, read_entries_boards, Stats, read_stats_snapshot,
}
use miner_alerts.Monitor.Reading.Agreement.{
  Returns, SameRate, caught_int-Returns, first_rate-SameRate, first_count-Returns,
}

-- The boards of a poll are those that were read alone.
abbrev pub SameBoards : Result Stats → Option ℕ → Type 0
SameBoards raised o = Unit
SameBoards (returned (boards, responded)) o = boards ≡ o

-- The rate and the uptime of a poll are those that were read alone.
abbrev pub SameSummary : Result Summary → MinerSampleEnvelope → Type 0
SameSummary raised e = Unit
SameSummary (returned r) e = SameRate r.rate_ths e.rate_ths × (r.elapsed ≡ e.elapsed_seconds)

no_entries :
    (b : Bool) → SameBoards (if b then returned (none, true) else returned (none, true)) none
no_entries true = refl
no_entries false = refl

counted-SameBoards :
    (r : Result (Option ℕ)) (o : Option ℕ)
    → Returns r o
    → SameBoards (r >>= λ a. returned (a, true)) o
counted-SameBoards raised o h = tt
counted-SameBoards (returned a) o h = h

stats_of-SameBoards :
    (c : Conversions) (v : Json) → SameBoards (read_stats_true c v) (first_count c (entries_of v))
unfolding truth read_entries_boards first_count count_active_boards count_boards board_works get
stats_of-SameBoards c null = refl
stats_of-SameBoards c (boolean b) = no_entries b
stats_of-SameBoards c (integer z) = no_entries (truth (integer z))
stats_of-SameBoards c (real x) = no_entries (truth (real x))
stats_of-SameBoards c (text t) = no_entries (truth (text t))
stats_of-SameBoards c (list end) = refl
stats_of-SameBoards c (list (item v js)) =
    counted-SameBoards (read_entries_boards c (item v js)) _ (first_count-Returns c (item v js))
stats_of-SameBoards c (dict empty) = refl
stats_of-SameBoards c (dict (entry key v d)) =
    let js = item (dict (entry key v d)) end in
    counted-SameBoards (read_entries_boards c js) _ (first_count-Returns c js)

elapsed_of-Returns :
    (c : Conversions) (v : Option Json) → Returns (elapsed_of c v) (to_int c (or_null v))
unfolding to_int
elapsed_of-Returns c none = refl
elapsed_of-Returns c (some v) = caught_int-Returns c v

read-SameSummary :
    (x : Option Float) (v : Option Json) (r : Result (Option ℤ)) (o : Option ℤ)
    (e : MinerSampleEnvelope)
    → Returns r o
    → e.elapsed_seconds ≡ o
    → SameRate x e.rate_ths
    → SameSummary
        (r >>= λ a. returned (record { rate_ths = x; elapsed = a; responded = true; entry = v }))
        e
read-SameSummary x v raised o e h k rate = tt
read-SameSummary x v (returned a) o e h k rate = (rate, h ∙ sym k)

module _ (c : Conversions) (s : Subject) (o : TransportOutcome) where
  unread :
      (b : Bool) → SameSummary (if b then raised else returned no_summary) (summarized c s o none)
  unfolding summarized answered base_envelope
  unread true = tt
  unread false = (refl, refl)

  rated_reads :
      (d : Entries) (r : Option ℤ)
      → ((rated c s o d r).rate_ths ≡ r)
        × ((rated c s o d r).elapsed_seconds ≡ to_int c (or_null (get "Elapsed" d)))
  unfolding rated answered base_envelope
  rated_reads d none = (refl, refl)
  rated_reads d (some z) = (refl, refl)

  read_dict-SameSummary :
      (d : Entries) → SameSummary (read_first c (dict d)) (summarized c s o (some d))
  unfolding read_first summarized extract_rate_ths
  read_dict-SameSummary d =
      let e = rated c s o d (extract_rate_ths c d) in
      let (rate, elapsed) = rated_reads d (extract_rate_ths c d) in
      read-SameSummary _ _ (elapsed_of c (get "Elapsed" d)) _ e
        (elapsed_of-Returns c (get "Elapsed" d)) elapsed
        (subst (SameRate _) (sym rate) (first_rate-SameRate c d rate_keys))

  read_entry-SameSummary :
      (v : Json) (js : Items)
      → SameSummary (read_first c v) (summarized c s o (first_dict (item v js)))
  unfolding read_first summarized answered base_envelope
  read_entry-SameSummary (dict d) js = read_dict-SameSummary d
  read_entry-SameSummary (list ks) js = (refl, refl)
  read_entry-SameSummary (text t) js = (refl, refl)
  read_entry-SameSummary null js = tt
  read_entry-SameSummary (boolean b) js = tt
  read_entry-SameSummary (integer z) js = tt
  read_entry-SameSummary (real x) js = tt

  unread_text :
      (t : String) (b : Bool)
      → SameSummary
          (if b then read_first c (text t) else returned no_summary)
          (summarized c s o none)
  unfolding read_first summarized answered base_envelope
  unread_text t true = (refl, refl)
  unread_text t false = (refl, refl)

  read_true-SameSummary :
      (v : Option Json) → SameSummary (read_true c (or_null v)) (summarized c s o (first_entry v))
  unfolding truth
  read_true-SameSummary none = unread false
  read_true-SameSummary (some null) = unread false
  read_true-SameSummary (some (boolean b)) = unread b
  read_true-SameSummary (some (integer z)) = unread (truth (integer z))
  read_true-SameSummary (some (real x)) = unread (truth (real x))
  read_true-SameSummary (some (text t)) = unread_text t (truth (text t))
  read_true-SameSummary (some (list end)) = unread false
  read_true-SameSummary (some (list (item v js))) = read_entry-SameSummary v js
  read_true-SameSummary (some (dict empty)) = unread false
  read_true-SameSummary (some (dict (entry key v d))) = unread true

  payload-SameSummary :
      (d : Entries) → SameSummary (read_summary c (dict d)) (with_payload c s o (some d))
  unfolding read_summary with_payload truth get
  payload-SameSummary empty = unread false
  payload-SameSummary (entry key v d) = read_true-SameSummary (get "SUMMARY" (entry key v d))

stats-SameBoards :
    (c : Conversions) (d : Entries)
    → SameBoards (read_stats_snapshot c (dict d)) (boards_in c (some d))
unfolding read_stats_snapshot boards_in truth get first_count
stats-SameBoards c empty = refl
stats-SameBoards c (entry key v d) = stats_of-SameBoards c (or_null (get "STATS" (entry key v d)))

-- What the transport gives for an answer.
abbrev pub answer : Entries → Float → Float → TransportOutcome
answer d completed latency = record {
  status = success;
  payload = some d;
  completed_monotonic = completed;
  latency_ms = latency;
}

-- From the same answers, a poll has the rate, the uptime and the active boards that the monitor reads
-- from a miner that it asks alone, where this ends without an exception and the rate that it reads is
-- finite.
pub polled_as_read :
    (c : Conversions) (s : Subject) (d stats : Entries) (t l t1 l1 : Float)
    → SameSummary (read_summary c (dict d)) (normalize_summary c s (answer d t l))
      × SameBoards
          (read_stats_snapshot c (dict stats))
          (with_stats c (normalize_summary c s (answer d t l)) (answer stats t1 l1)).active_boards
unfolding normalize_summary miner_alerts.Acquisition.Sample.by_status with_stats
polled_as_read c s d stats t l t1 l1 =
    (payload-SameSummary c s (answer d t l) d, stats-SameBoards c stats)
