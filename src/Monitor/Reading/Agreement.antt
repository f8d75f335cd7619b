-- ===== src/Monitor/Reading/Agreement.antt =====
-- That the numbers, the rates and the boards of an answer in app/miner_monitor.py are those that
-- app/acquisition.py reads.
use miner_alerts.Base.{ℕ, ◌≡◌, refl, ap, subst, Bool, Option, none, some, List, [], ◌∷◌, String}
use miner_alerts.Base.Int.{ℤ}
use miner_alerts.Base.Float.{Float, nan, neg_inf, pos_inf, fin}
use miner_alerts.Base.Json.{
  Json, null, boolean, integer, real, text, list, dict, Items, end, item, Entries, Conversions, get,
  to_float, to_int,
}
use miner_alerts.Acquisition.Json.{
  BoardKeys, all_boards, first_rate, board_works, count_boards, count_active_boards, positive_int,
  add_board, finite_rate, rate_at, or_else, chain_count, by_status, or_number,
}
use miner_alerts.Acquisition.Sample.{first_count, if_counted}
use miner_alerts.Monitor.Reading.{
  Result, raised, returned, caught_int, first_present_rate, works, works_or, status_works, scaled,
  converted, or_next, chains_or_listed, ◌>>=◌, or_rest, board_counts, count_listed,
  read_active_boards, read_entries_boards,
}

-- A call that returns gives `a`.
abbrev pub Returns {ℓ} : {A : Type ℓ} → Result A → A → Type ℓ
Returns raised a = Unit
Returns (returned b) a = b ≡ a

-- The rate of a poll is the rate that was read alone, unless this is not finite.
abbrev pub SameRate : Option Float → Option ℤ → Type 0
SameRate none o = o ≡ none
SameRate (some (fin z)) o = o ≡ some z
SameRate (some x) o = Unit

pub caught_int-Returns : (c : Conversions) (v : Json) → Returns (caught_int c v) (to_int c v)
unfolding caught_int
caught_int-Returns c (real neg_inf) = tt
caught_int-Returns c (real pos_inf) = tt
caught_int-Returns c (real nan) = refl
caught_int-Returns c (real (fin z)) = refl
caught_int-Returns c null = refl
caught_int-Returns c (boolean b) = refl
caught_int-Returns c (integer z) = refl
caught_int-Returns c (text t) = refl
caught_int-Returns c (list js) = refl
caught_int-Returns c (dict d) = refl

or_else-SameRate :
    (factor : ℕ) (x : Option Float) (y : Option Float) (o : Option ℤ)
    → SameRate y o
    → SameRate (or_next (scaled factor x) y) (or_else (finite_rate factor x) o)
or_else-SameRate factor none y o h = h
or_else-SameRate factor (some (fin z)) y o h = refl
or_else-SameRate factor (some nan) y o h = tt
or_else-SameRate factor (some neg_inf) y o h = tt
or_else-SameRate factor (some pos_inf) y o h = tt

rate_at-SameRate :
    (c : Conversions) (factor : ℕ) (v : Option Json) (y : Option Float) (o : Option ℤ)
    → SameRate y o
    → SameRate (or_next (converted c factor v) y) (or_else (rate_at c factor v) o)
rate_at-SameRate c factor none y o h = h
rate_at-SameRate c factor (some v) y o h = or_else-SameRate factor (to_float c v) y o h

pub first_rate-SameRate :
    (c : Conversions) (d : Entries) (keys : List (String × ℕ))
    → SameRate (first_present_rate c d keys) (first_rate c d keys)
unfolding first_present_rate first_rate
first_rate-SameRate c d [] = refl
first_rate-SameRate c d ((key, factor) ∷ keys) =
    rate_at-SameRate c factor (get key d) _ _ (first_rate-SameRate c d keys)

works_or-Returns :
    (c : Conversions) (v : Option Json) (r : Result (Option Bool)) (o : Option Bool)
    → Returns r o
    → Returns (works_or c v r) (or_number c v o)
works_or-Returns c none r o h = h
works_or-Returns c (some v) r o h =
    works-Returns (caught_int c v) (to_int c v) (caught_int-Returns c v)
  where
    works-Returns :
        (r : Result (Option ℤ)) (o : Option ℤ)
        → Returns r o
        → Returns (works r) (some (positive_int o))
    works-Returns raised o h = tt
    works-Returns (returned p) o h = ap (λ p. some (positive_int p)) h

status_works-Returns :
    (c : Conversions) (v : Option Json) → Returns (status_works c v) (by_status c v)
status_works-Returns c none = refl
status_works-Returns c (some v) = refl

board_counts-Returns :
    (c : Conversions) (d : Entries) (k : BoardKeys)
    → Returns (board_counts c d k) (board_works c d k)
unfolding board_counts board_works
board_counts-Returns c d k = works_or-Returns c (get k.acn d) _ _ (
    works_or-Returns c (get k.asicnum d) _ _
      (works_or-Returns c (get k.alive d) _ _ (status_works-Returns c (get k.status d))))

add_board-Returns :
    (r : Result (Option Bool)) (b : Option Bool) (rest : Result (Option ℕ)) (n : Option ℕ)
    → Returns r b
    → Returns rest n
    → Returns (r >>= λ b. rest >>= λ n. returned (add_board b n)) (add_board b n)
add_board-Returns raised b rest n h k = tt
add_board-Returns (returned b1) b raised n h k = tt
add_board-Returns (returned b1) b (returned n1) n h k = rw (h, k) refl

count_listed-Returns :
    (c : Conversions) (d : Entries) (ks : List BoardKeys)
    → Returns (count_listed c d ks) (count_boards c d ks)
unfolding count_listed count_boards
count_listed-Returns c d [] = refl
count_listed-Returns c d (k ∷ ks) =
    add_board-Returns (board_counts c d k) _ (count_listed c d ks) _ (board_counts-Returns c d k)
      (count_listed-Returns c d ks)

chains-Returns :
    (c : Conversions) (d : Entries) (v : Option Json)
    → Returns (chains_or_listed c d v) (chain_count c d v)
chains-Returns c d (some (list js)) = refl
chains-Returns c d none = count_listed-Returns c d all_boards
chains-Returns c d (some null) = count_listed-Returns c d all_boards
chains-Returns c d (some (boolean b)) = count_listed-Returns c d all_boards
chains-Returns c d (some (integer z)) = count_listed-Returns c d all_boards
chains-Returns c d (some (real x)) = count_listed-Returns c d all_boards
chains-Returns c d (some (text t)) = count_listed-Returns c d all_boards
chains-Returns c d (some (dict e)) = count_listed-Returns c d all_boards

pub read_active_boards-Returns :
    (c : Conversions) (d : Entries) → Returns (read_active_boards c d) (count_active_boards c d)
unfolding read_active_boards count_active_boards
read_active_boards-Returns c d = chains-Returns c d (get "chain_acn" d)

pub first_count-Returns :
    (c : Conversions) (js : Items) → Returns (read_entries_boards c js) (first_count c js)
unfolding read_entries_boards first_count
first_count-Returns c end = refl
first_count-Returns c (item null js) = first_count-Returns c js
first_count-Returns c (item (boolean b) js) = first_count-Returns c js
first_count-Returns c (item (integer z) js) = first_count-Returns c js
first_count-Returns c (item (real x) js) = first_count-Returns c js
first_count-Returns c (item (text t) js) = first_count-Returns c js
first_count-Returns c (item (list ks) js) = first_count-Returns c js
first_count-Returns c (item (dict d) js) =
    counted-Returns (read_active_boards c d) _ (read_entries_boards c js) _
      (read_active_boards-Returns c d) (first_count-Returns c js)
  where
    next-Returns :
        (a : Option ℕ) (r : Result (Option ℕ)) (b : Option ℕ)
        → Returns r b
        → Returns (or_rest a r) (if_counted a b)
    next-Returns none r b h = h
    next-Returns (some n) r b h = refl

    counted-Returns :
        (r : Result (Option ℕ)) (o : Option ℕ) (rest : Result (Option ℕ)) (b : Option ℕ)
        → Returns r o
        → Returns rest b
        → Returns (r >>= λ a. or_rest a rest) (if_counted o b)
    counted-Returns raised o rest b h k = tt
    counted-Returns (returned a) o rest b h k =
        subst (λ p. Returns (or_rest a rest) (if_counted p b)) h (next-Returns a rest b k)
