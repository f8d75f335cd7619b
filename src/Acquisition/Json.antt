-- ===== src/Acquisition/Json.antt =====
-- What app/acquisition.py reads from the miner's answers: the rate, a count, the active boards. An
-- integer too large for a float is not modelled here.
use miner_alerts.Base.{
  ℕ, suc, Bool, true, false, ◌||◌, Option, none, some, List, [], ◌∷◌, String, same_text,
}
use miner_alerts.Base.Int.{ℤ, pos, times}
use miner_alerts.Base.Float.{Float, fin, lt_float}
use miner_alerts.Base.Json.{
  Json, boolean, integer, real, list, Items, end, item, Entries, Conversions, get, to_float, to_int,
}

-- `_optional_int`
abbrev pub optional_int : Conversions → Json → Option ℤ
optional_int = to_int

abbrev pub finite_rate : ℕ → Option Float → Option ℤ
finite_rate factor (some (fin z)) = some (times factor z)
finite_rate factor _ = none

abbrev pub rate_at : Conversions → ℕ → Option Json → Option ℤ
rate_at c factor none = none
rate_at c factor (some v) = finite_rate factor (to_float c v)

abbrev pub or_else : Option ℤ → Option ℤ → Option ℤ
or_else (some z) o = some z
or_else none o = o

-- The loop over the keys.
unfoldable pub first_rate : Conversions → Entries → List (String × ℕ) → Option ℤ
first_rate c d [] = none
first_rate c d ((key, factor) ∷ keys) = or_else (rate_at c factor (get key d)) (first_rate c d keys)

-- `_extract_rate_ths`, in millionths of a millionth of a TH/s: a millionth of a GH/s is a thousand
-- of these and of a MH/s is one.
unfoldable pub extract_rate_ths : Conversions → Entries → Option ℤ
unfolding first_rate
extract_rate_ths c d =
    first_rate c d (("GHS 5s", 1000) ∷ ("GHS av", 1000) ∷ ("MHS 5s", 1) ∷ ("MHS av", 1) ∷ [])

abbrev pub positive_int : Option ℤ → Bool
positive_int (some (pos (suc n))) = true
positive_int _ = false

-- `isinstance(value, (int, float)) and value > 0`
unfoldable pub positive_number : Json → Bool
positive_number (boolean b) = b
positive_number (integer z) = positive_int (some z)
positive_number (real x) = lt_float (fin (pos 0)) x
positive_number _ = false

abbrev pub add_one : Bool → ℕ → ℕ
add_one true n = suc n
add_one false n = n

unfoldable pub count_positive : Items → ℕ
unfolding positive_number
count_positive end = 0
count_positive (item v js) = add_one (positive_number v) (count_positive js)

-- The keys of one board, in the order in which they are tried.
pub record BoardKeys : Type 0 where
  pub acn : String
  pub asicnum : String
  pub alive : String
  pub status : String

abbrev board : String → String → String → String → BoardKeys
board a n l s = record { acn = a; asicnum = n; alive = l; status = s }

abbrev pub all_boards : List BoardKeys
all_boards =
    board "chain_acn0" "chain0_asicnum" "chain0_alive" "chain0_status"
    ∷ board "chain_acn1" "chain1_asicnum" "chain1_alive" "chain1_status"
    ∷ board "chain_acn2" "chain2_asicnum" "chain2_alive" "chain2_status"
    ∷ board "chain_acn3" "chain3_asicnum" "chain3_alive" "chain3_status"
    ∷ board "chain_acn4" "chain4_asicnum" "chain4_alive" "chain4_status"
    ∷ board "chain_acn5" "chain5_asicnum" "chain5_alive" "chain5_status"
    ∷ board "chain_acn6" "chain6_asicnum" "chain6_alive" "chain6_status"
    ∷ board "chain_acn7" "chain7_asicnum" "chain7_alive" "chain7_status"
    ∷ board "chain_acn8" "chain8_asicnum" "chain8_alive" "chain8_status"
    ∷ board "chain_acn9" "chain9_asicnum" "chain9_alive" "chain9_status"
    ∷ []

-- `str(value).lower() in ("alive", "o", "ok")`
abbrev pub alive_status : String → Bool
alive_status s = same_text s "alive" || (same_text s "o" || same_text s "ok")

abbrev pub by_status : Conversions → Option Json → Option Bool
by_status c none = none
by_status c (some v) = some (alive_status (c.lower_str v))

abbrev pub or_number : Conversions → Option Json → Option Bool → Option Bool
or_number c none o = o
or_number c (some v) o = some (positive_int (optional_int c v))

-- Whether the first key that is there shows a working board; `none` if no key is there.
unfoldable pub board_works : Conversions → Entries → BoardKeys → Option Bool
unfolding to_int
board_works c d k =
    or_number c (get k.acn d)
      (or_number c (get k.asicnum d) (or_number c (get k.alive d) (by_status c (get k.status d))))

abbrev pub add_board : Option Bool → Option ℕ → Option ℕ
add_board none o = o
add_board (some b) none = some (add_one b 0)
add_board (some b) (some n) = some (add_one b n)

-- The loop over the boards; `none` while no key was found.
unfoldable pub count_boards : Conversions → Entries → List BoardKeys → Option ℕ
unfolding board_works
count_boards c d [] = none
count_boards c d (k ∷ ks) = add_board (board_works c d k) (count_boards c d ks)

abbrev pub chain_count : Conversions → Entries → Option Json → Option ℕ
chain_count c d (some (list js)) = some (count_positive js)
chain_count c d _ = count_boards c d all_boards

-- `_count_active_boards`
unfoldable pub count_active_boards : Conversions → Entries → Option ℕ
unfolding count_boards count_positive
count_active_boards c d = chain_count c d (get "chain_acn" d)
