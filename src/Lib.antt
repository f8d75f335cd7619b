-- ===== src/Lib.antt =====
-- Verification library of the miner monitor: a process that polls mining machines, decides the state
-- of each, may reboot one that is LOW for long, and reports episodes of irregular behaviour; analyses
-- of what was stored; and a watchdog that checks that the process itself is alive.
--
-- Parts and files:
-- * RebootSafety is app/reboot_safety.py: `evaluate_auto_reboot_interlocks`, with one definition for
--   each local value and each guard, over a record of its keyword arguments.
-- * RestartIntelligence is app/restart_intelligence.py: `classify_restart`.
-- * Monitor is one miner's part of a tick of `main` in app/miner_monitor.py, from the reading to the
--   call of the episode coordinator. Monitor.State has `MinerState`, the settings that `main` reads,
--   the reading, and what a tick finds outside the miner; Signal the per-tick signal and the QA
--   forcing; Hysteresis the streaks and the state; Restart the uptime, the restart incident and the
--   pending notice; Policy the automatic reboot, as a function that returns the new state and the
--   list of calls; Tick composes them, with `continue` as a field of the policy's outcome; Persist
--   `save_state` and `load_state`, around a restart; Reading `read_summary` and
--   `read_stats_snapshot`. The tick calls RebootSafety for the interlocks and RestartIntelligence for
--   the incident.
-- * AlertEpisodes is app/alert_episodes.py: Episode has the episodes and their bounded history,
--   Coordinator the class's operations up to `detail_event_id`, PopDue `pop_due`.
-- * Liveness is app/liveness.py: Assess has `assess_liveness`, Notify `decide_notification`.
-- * EvidenceFusion is app/evidence_fusion.py: the ceilings, levels and hypotheses in the module
--   itself, Facts the freshness, clock and code of a fact, Fleet `detect_fleet_pattern`, Config
--   `FusionConfig.from_mapping`; Agreement compares its attribution window with RestartIntelligence.
-- * TelegramMessages is app/telegram_messages.py: the splitting of a normalized text into messages
--   with headers, over lists of code points.
-- * Acquisition is app/acquisition.py, which polls the miners within a deadline: Config the settings,
--   Registry `InFlightRegistry` with its leases, Scheduler `EpochScheduler`, Json and Sample what is read
--   from the answers (`_extract_rate_ths`, `_count_active_boards`, `_normalize_summary`, `_with_stats`),
--   Worker one submitted poll, Collect the collections of `BoundedAcquirer`, PollHealth the counts of the
--   class of that name, Dispatch `dispatch_authoritative`. Collect takes and frees leases of Registry,
--   runs Worker for each and records in PollHealth.
-- * MiningQuality is app/mining_quality.py: Delta `_pair_delta` and `_is_comparable`, Analyze
--   `analyze_mining_quality` with its comparable intervals.
-- * StabilityProfile is app/stability_profile.py: Bands the baseline, Analyze `analyze_stability`.
-- * MetricsSnapshot is app/metrics_snapshot.py: Schema the dataclasses and `to_dict`, Validate
--   `validate_snapshot_data`, Load `load_metrics_snapshot`.
-- * Base has what the parts share; it models Python's floats, integers, dicts, JSON values and `sorted`.
-- The modules below a part hold the proofs, and each part's Examples the tests and witnesses.
--
-- Numbers: timestamps and durations are natural numbers of millionths of a second (`unit`), uptimes
-- natural numbers of seconds; a difference of times that the code compares is written as a sum on the
-- other side. Rates and thresholds are NaN, an infinity or an integer of millionths, without
-- rounding; an integer that is too large for a float raises where the settings of app/evidence_fusion.py
-- and app/acquisition.py are read, and is not modelled elsewhere. What the code takes as `Any` is a
-- `Value`, which says what `float` makes of it, or a `Json` where the code looks inside it.
--
-- Fuel: `trim` recurses on the length of the history, of which each round removes one step, so that
-- it ends at the cap; `advance` recurses on the schedule, of which each round passes one entry;
-- `raw_parts` recurses on the length of the text, of which each round cuts at least one code point;
-- `decimal_text` on the number it writes. All other functions are structural.
--
-- Given to the definitions, as parameters of functions: Python's conversions of texts to numbers
-- (`Conversions`), its `str` and `strip` (`Texts`, `Reader`), the rounding of a quotient to four places
-- (`round4`), the median, the products and the rounding of floats in the baseline (`Numerics`), and what
-- the threads do while a collection goes on (`Meanwhile`): for each poll (`Fate`) whether it ends in time,
-- its clock readings and the transport's answers, or how far its worker is, and which polls of others end.
--
-- Outside: the clock, the ids that the event store returns, whether it is available, the answer of
-- the command line tool and the order of ticks are arguments of the definitions. Texts of logs and
-- messages are left out, and labels and evidence are data in place of texts.
--
-- Not modelled: the sockets under the polls and the shutdown of the executor, the parsing of the
-- monitor's own configuration, the files of the states, the Telegram workers and commands, the
-- writing of the metrics snapshot, the event store, the analysis of firmware logs, the normalisation of
-- the chain fields that mining quality is given, the digest of the evidence, all renderers, and the
-- tools. They are input and output around the parts above, or later parts of this library.
pub mod Base
pub mod RebootSafety
pub mod RestartIntelligence
pub mod Monitor
pub mod AlertEpisodes
pub mod Liveness
pub mod EvidenceFusion
pub mod TelegramMessages
pub mod Acquisition
pub mod MiningQuality
pub mod StabilityProfile
pub mod MetricsSnapshot
