-- ===== src/TelegramMessages.antt =====
-- `split_telegram_message` in app/telegram_messages.py. A text is the list of its code points, after
-- `normalize_telegram_text`, which rests on Unicode tables and is left out.
pub mod Joined
pub mod Limits
mod Examples
use miner_alerts.Base.{
  ℕ, zero, suc, ◌+◌, ◌-◌, ◌/◌, ◌%◌, ◌++◌, Bool, true, false, ◌&&◌, Option, none, some, List, [],
  ◌∷◌, length, ltb, leb, eqb, take, drop, if◌then◌else◌,
}

abbrev pub Text : Type 0
Text = List ℕ

abbrev pub starts_with : Text → Text → Bool
starts_with [] t = true
starts_with (c ∷ s) [] = false
starts_with (c ∷ s) (d ∷ t) = eqb c d && starts_with s t

abbrev pub later : Option ℕ → Bool → Option ℕ
later (some i) here = some (suc i)
later none true = some 0
later none false = none

-- `text.rfind(separator, 0, end)` for a separator that is not empty: the last place at which it
-- stands before the end.
unfoldable pub rfind : Text → Text → ℕ → Option ℕ
rfind s [] end = none
rfind s (c ∷ t) zero = none
rfind s (c ∷ t) (suc end) =
    let rest = rfind s t end in later rest (leb (length s) (suc end) && starts_with s (c ∷ t))

-- The place after the separator, if it was found past the start.
abbrev pub cut_after : Option ℕ → ℕ → ℕ → ℕ
cut_after none size other = other
cut_after (some zero) size other = other
cut_after (some (suc i)) size other = suc i + size

unfoldable pub cut_at : List Text → Text → ℕ → ℕ
cut_at [] text limit = limit
cut_at (s ∷ ss) text limit =
    let other = cut_at ss text limit in cut_after (rfind s text (limit + 1)) (length s) other

-- An empty line, a line's end, a space.
abbrev pub separators : List Text
separators = (b'\n' ∷ b'\n' ∷ []) ∷ (b'\n' ∷ []) ∷ (b' ' ∷ []) ∷ []

-- `_preferred_cut`
unfoldable pub preferred_cut : Text → ℕ → ℕ
preferred_cut text limit = cut_at separators text limit

-- The loop that cuts; the length of the text is enough fuel.
unfoldable pub raw_parts : ℕ → ℕ → Text → List Text
raw_parts fuel payload [] = []
raw_parts zero payload (c ∷ t) = []
raw_parts (suc fuel) payload (c ∷ t) =
    let cut = preferred_cut (c ∷ t) payload in
    let rest = raw_parts fuel payload (drop cut (c ∷ t)) in
    if leb (length (c ∷ t)) payload then (c ∷ t) ∷ [] else take cut (c ∷ t) ∷ rest

-- A number in decimal; the number itself is enough fuel.
unfoldable pub decimal_text : ℕ → ℕ → Text
decimal_text zero n = (b'0' + n % 10) ∷ []
decimal_text (suc fuel) n =
    let rest = decimal_text fuel (n / 10) in
    if ltb n 10 then (b'0' + n) ∷ [] else rest ++ (b'0' + n % 10) ∷ []

-- `f"Parte {index}/{count}\n\n"`
unfoldable pub header : ℕ → ℕ → Text
header index count =
    (b'P' ∷ b'a' ∷ b'r' ∷ b't' ∷ b'e' ∷ b' ' ∷ [])
    ++ (decimal_text index index ++ (b'/' ∷ (decimal_text count count ++ (b'\n' ∷ b'\n' ∷ []))))

-- `enumerate(raw_parts, start=index)`
unfoldable pub number_parts : ℕ → ℕ → List Text → List Text
number_parts index count [] = []
number_parts index count (part ∷ parts) =
    (header index count ++ part) ∷ number_parts (index + 1) count parts

-- The messages; `none` is the ValueError of a limit that leaves no room for the header.
unfoldable pub split_telegram_message : ℕ → Text → Option (List Text)
split_telegram_message limit text =
    if leb (length text) limit
    then some (text ∷ [])
    else (if leb limit 32
        then none
        else (let parts = raw_parts (length text) (limit - 32) text in
            some (number_parts 1 (length parts) parts)))
