-- ===== src/TelegramMessages/Examples.antt =====
-- Concrete texts for app/telegram_messages.py.
use miner_alerts.Base.{◌≤◌, ◌≡◌, refl, some, List, [], ◌∷◌, ◌++◌, length, All, arith}
use miner_alerts.TelegramMessages.{Text, preferred_cut, raw_parts, header, split_telegram_message}
use miner_alerts.TelegramMessages.Joined.{join, IsShort, raw_parts-IsSplit}
use miner_alerts.TelegramMessages.Limits.{split_telegram_message_lem}

abbrev word : Text
word = b'm' ∷ b'i' ∷ b'n' ∷ b'e' ∷ b'r' ∷ b' ' ∷ []

-- A word and its space, six times over.
abbrev message : Text
message = word ++ (word ++ (word ++ (word ++ (word ++ word))))

cut_after_space : preferred_cut message 8 ≡ 6
unfolding preferred_cut miner_alerts.TelegramMessages.cut_at miner_alerts.TelegramMessages.rfind
cut_after_space = refl

second_header :
    header 2 13
    ≡ b'P' ∷ b'a' ∷ b'r' ∷ b't' ∷ b'e' ∷ b' ' ∷ b'2' ∷ b'/' ∷ b'1' ∷ b'3' ∷ b'\n' ∷ b'\n' ∷ []
unfolding header miner_alerts.TelegramMessages.decimal_text
second_header = refl

raw_parts-IsSplit_example :
    (join (raw_parts 36 3 message) ≡ message) × All (IsShort 3) (raw_parts 36 3 message)
raw_parts-IsSplit_example = raw_parts-IsSplit 36 3 message (omega arith) (omega arith)

split_telegram_message_lem_example :
    (messages : List Text) × (split_telegram_message 35 message ≡ some messages)
    × All (λ m. length m ≤ 35) messages
split_telegram_message_lem_example =
    split_telegram_message_lem 35 message (omega arith) (omega arith)
