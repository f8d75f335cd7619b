-- ===== src/TelegramMessages/Limits.antt =====
-- The messages of a split in app/telegram_messages.py are within the limit.
use miner_alerts.Base.{
  ℕ, zero, suc, ◌+◌, ◌-◌, ◌*◌, ◌/◌, ◌%◌, ◌≤◌, ◌<◌, ◌≡◌, refl, sym, subst, ap, inl, inr, some, List,
  [], ◌∷◌, ◌++◌, length, All, Bool-cases, ltb, leb, length-append, arith,
}
use miner_alerts.TelegramMessages.{
  Text, raw_parts, decimal_text, header, number_parts, split_telegram_message,
}
use miner_alerts.TelegramMessages.Joined.{join, IsShort, raw_parts-IsSplit}

abbrev pub power : ℕ → ℕ
power zero = 1
power (suc k) = 10 * power k

length-snoc : (t : Text) (c : ℕ) → length (t ++ c ∷ []) ≡ length t + 1
length-snoc t c = length-append t (c ∷ [])

length-decimal_text_one : (fuel n : ℕ) → n < 10 → length (decimal_text fuel n) ≤ 1
unfolding decimal_text
length-decimal_text_one zero n h = omega arith
length-decimal_text_one (suc fuel) n h = ground (arith, h)

-- A number under the power of ten has no more digits than its exponent.
decimal_text-length : (fuel k n : ℕ) → n < power (suc k) → length (decimal_text fuel n) ≤ suc k
unfolding decimal_text
decimal_text-length zero k n h = omega arith
decimal_text-length (suc fuel) zero n h = length-decimal_text_one (suc fuel) n (omega (arith, h))
decimal_text-length (suc fuel) (suc k) n h = elim (Bool-cases (ltb n 10)) [
  | inl small ↦ rw small (omega arith)
  | inr large ↦ rw large (
      omega (
        arith,
        length-snoc (decimal_text fuel (n / 10)) (b'0' + n % 10),
        decimal_text-length fuel k (n / 10) (omega (arith, h)),
      ))
]

length-framed :
    (p a : Text) (c : ℕ) (b r : Text)
    → length (p ++ (a ++ (c ∷ (b ++ r)))) ≡ length p + length a + 1 + length b + length r
length-framed p a c b r = omega (
  arith,
  length-append p (a ++ (c ∷ (b ++ r))),
  length-append a (c ∷ (b ++ r)),
  length-append b r,
)

length-header :
    (index count : ℕ) → index ≤ count → count < power 11 → length (header index count) ≤ 31
unfolding header
length-header index count le few =
    subst (λ n. n ≤ 31)
      (sym (
        length-framed (b'P' ∷ b'a' ∷ b'r' ∷ b't' ∷ b'e' ∷ b' ' ∷ []) (decimal_text index index) b'/'
          (decimal_text count count) (b'\n' ∷ b'\n' ∷ [])))
      (omega (
        arith,
        decimal_text-length index 10 index (omega (arith, le, few)),
        decimal_text-length count 10 count few,
      ))

number_parts_within :
    (limit index count : ℕ) (parts : List Text)
    → 32 < limit
    → count < power 11
    → index + length parts ≤ count + 1
    → All (IsShort (limit - 32)) parts
    → All (λ m. length m ≤ limit) (number_parts index count parts)
unfolding number_parts
number_parts_within limit index count [] room few le h = tt
number_parts_within limit index count (part ∷ parts) room few le h = (
  omega (
    arith,
    length-append (header index count) part,
    length-header index count (omega (arith, le)) few,
    h.0.1,
    room,
  ),
  number_parts_within limit (index + 1) count parts room few (omega (arith, le)) h.1,
)

-- Each part has a code point, so there are no more parts than code points.
parts_le :
    (payload : ℕ) (parts : List Text)
    → All (IsShort payload) parts
    → length parts ≤ length (join parts)
parts_le payload [] h = omega arith
parts_le payload (t ∷ ts) h =
    omega (arith, length-append t (join ts), h.0.0, parts_le payload ts h.1)

split_within :
    (limit : ℕ) (text : Text)
    → 32 < limit
    → length text < power 11
    → let parts = raw_parts (length text) (limit - 32) text in
      All (λ m. length m ≤ limit) (number_parts 1 (length parts) parts)
split_within limit text room few =
    let parts = raw_parts (length text) (limit - 32) text in
    let (joined, short) =
      raw_parts-IsSplit (length text) (limit - 32) text (omega (arith, room)) (omega arith) in
    let count : length parts ≤ length text =
      omega (arith, parts_le (limit - 32) parts short, ap length joined) in
    number_parts_within limit 1 (length parts) parts room (omega (arith, count, few)) (omega arith)
      short

-- A text of fewer than 10^11 code points is always split under a limit of more than 32, and no
-- message exceeds the limit, with its header included.
pub split_telegram_message_lem :
    (limit : ℕ) (text : Text)
    → 32 < limit
    → length text < power 11
    → (messages : List Text) × (split_telegram_message limit text ≡ some messages)
      × All (λ m. length m ≤ limit) messages
unfolding split_telegram_message
split_telegram_message_lem limit text room few =
    let parts = raw_parts (length text) (limit - 32) text in
    elim (Bool-cases (leb (length text) limit)) [
      | inl fits ↦ (text ∷ [], rw fits refl, (ground (arith, fits), tt))
      | inr long ↦ (
        number_parts 1 (length parts) parts,
        ground (arith, long, room),
        split_within limit text room few,
      )
    ]
