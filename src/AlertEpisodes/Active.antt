-- ===== src/AlertEpisodes/Active.antt =====
-- Which episodes are open after a report in app/alert_episodes.py, and what holds of each.
use miner_alerts.Base.{
  ◌≡◌, subst, true, ◌&&◌, ◌||◌, none, some, [], ◌∷◌, ◌++◌, String, same_text, same_text_iff,
  is_some, if◌then◌else◌, arith,
}
use miner_alerts.Base.Dict.{Dict, lookup, lookup-insert, lookup-erase}
use miner_alerts.Monitor.State.{is_ok}
use miner_alerts.AlertEpisodes.Episode.{IrregularEpisode}
use miner_alerts.AlertEpisodes.Coordinator.{
  Schedule, Coordinator, Report, begin, update_episode, close, store, observe,
}

-- The episode of the reported miner after the report.
unfoldable pub reported : Schedule → Report → Coordinator → IrregularEpisode
reported c r k = update_episode c r (begin c r (lookup r.miner_key k.active))

same_key :
    (a b : String) (d : Dict IrregularEpisode)
    → (same_text a b) ≡ true
    → lookup a d ≡ none
    → lookup b d ≡ none
same_key a b d h e = subst (λ j. lookup j d ≡ none) ((same_text_iff a b).0 h) e

lookup-store :
    (c : Schedule) (r : Report) (e : IrregularEpisode) (k : Coordinator) (j : String)
    → lookup j (store c r e k).active ≡ (
        if same_text r.miner_key j
        then (if is_ok r.state then none else some e)
        else lookup j k.active)
unfolding store
lookup-store c r e k j =
    ground (arith, lookup-insert r.miner_key j e k.active, lookup-erase r.miner_key j k.active)

-- After a report the reported miner has an open episode unless its state is OK, and no other
-- miner's episode is touched.
pub lookup-observe :
    (c : Schedule) (r : Report) (k : Coordinator) (j : String)
    → lookup j (observe c r k).active ≡ (
        if same_text r.miner_key j
        then (if is_ok r.state then none else some (reported c r k))
        else lookup j k.active)
unfolding observe reported
lookup-observe c r k j = ground (
  arith,
  lookup-store c r (update_episode c r (begin c r (lookup r.miner_key k.active))) k j,
  same_key r.miner_key j k.active,
)

-- The episodes that wait for a recovery notice grow by the closed episode exactly when the state is
-- OK and the miner had an episode or restarted.
pub observe_recovered :
    (c : Schedule) (r : Report) (k : Coordinator)
    → (observe c r k).recovered ≡ (
        if is_ok r.state && (is_some (lookup r.miner_key k.active) || is_some r.restart)
        then k.recovered ++ close c r (reported c r k) ∷ []
        else k.recovered)
unfolding observe reported store
observe_recovered c r k = ground arith
