-- ===== src/TelegramMessages/Joined.antt =====
-- The raw parts of a split in app/telegram_messages.py join to the text, and each is short.
use mathlib.Core.List.{append-nil}
use miner_alerts.Base.{
  ℕ, zero, suc, ◌+◌, ◌≤◌, ◌<◌, ◌≡◌, inl, inr, refl, ap, ◌∙◌, Bool, true, false, Option, none, some,
  List, [], ◌∷◌, ◌++◌, length, take, drop, All, Bool-cases, leb, take-drop, length-take,
  length-drop, arith,
}
use miner_alerts.TelegramMessages.{
  Text, later, rfind, cut_after, cut_at, separators, preferred_cut, raw_parts,
}

-- `"".join(parts)`
abbrev pub join : List Text → Text
join [] = []
join (t ∷ ts) = t ++ join ts

later-bound :
    (o : Option ℕ) (here : Bool) (size end i : ℕ)
    → ((j : ℕ) → o ≡ some j → j + size ≤ end)
    → (here ≡ true → size ≤ suc end)
    → later o here ≡ some i
    → i + size ≤ suc end
later-bound (some j) here size end i h k e = ground (arith, h j refl)
later-bound none true size end i h k e = ground (arith, k refl)
later-bound none false size end i h k e = cc

rfind-bound : (s t : Text) (end i : ℕ) → rfind s t end ≡ some i → i + length s ≤ end
unfolding rfind
rfind-bound s [] end i e = cc
rfind-bound s (c ∷ t) zero i e = cc
rfind-bound s (c ∷ t) (suc end) i e =
    later-bound (rfind s t end) _ (length s) end i (rfind-bound s t end) (λ h. ground arith) e

cut_after-bound :
    (o : Option ℕ) (size other limit : ℕ)
    → ((i : ℕ) → o ≡ some i → i + size ≤ limit + 1)
    → (0 < other) × (other ≤ limit + 1)
    → (0 < cut_after o size other) × (cut_after o size other ≤ limit + 1)
cut_after-bound none size other limit h k = k
cut_after-bound (some zero) size other limit h k = k
cut_after-bound (some (suc i)) size other limit h k = (omega arith, h (suc i) refl)

cut_at-bound :
    (ss : List Text) (text : Text) (limit : ℕ)
    → 0 < limit
    → (0 < cut_at ss text limit) × (cut_at ss text limit ≤ limit + 1)
unfolding cut_at
cut_at-bound [] text limit pos = (pos, omega arith)
cut_at-bound (s ∷ ss) text limit pos =
    cut_after-bound (rfind s text (limit + 1)) (length s) _ limit (rfind-bound s text (limit + 1))
      (cut_at-bound ss text limit pos)

-- A part is not empty and exceeds the payload by one code point at most.
abbrev pub IsShort : ℕ → Text → Type 0
IsShort payload t = (0 < length t) × (length t ≤ payload + 1)

-- The parts join to the text, and each is short.
abbrev IsSplit : ℕ → Text → List Text → Type 0
IsSplit payload text parts = (join parts ≡ text) × All (IsShort payload) parts

length-take_pos : (n : ℕ) (c : ℕ) (t : Text) → 0 < n → 0 < length (take n (c ∷ t))
length-take_pos zero c t h = omega arith
length-take_pos (suc n) c t h = omega arith

one_part :
    (payload c : ℕ) (t : Text) → length (c ∷ t) ≤ payload → IsSplit payload (c ∷ t) ((c ∷ t) ∷ [])
one_part payload c t le = (ap (◌∷◌ c) (append-nil t), ((omega arith, omega (arith, le)), tt))

next_part :
    (payload cut c : ℕ) (t : Text) (rest : List Text)
    → (0 < cut) × (cut ≤ payload + 1)
    → IsSplit payload (drop cut (c ∷ t)) rest
    → IsSplit payload (c ∷ t) (take cut (c ∷ t) ∷ rest)
next_part payload cut c t rest bound h = (
  ap (λ u. take cut (c ∷ t) ++ u) h.0 ∙ take-drop cut (c ∷ t),
  ((length-take_pos cut c t bound.0, omega (arith, length-take cut (c ∷ t), bound.1)), h.1),
)

-- With the length of the text as fuel, and room for a code point, the loop cuts all of the text:
-- the parts join to it, none is empty, and none exceeds the payload by more than one code point.
pub raw_parts-IsSplit :
    (fuel payload : ℕ) (text : Text)
    → 0 < payload
    → length text ≤ fuel
    → (join (raw_parts fuel payload text) ≡ text)
      × All (IsShort payload) (raw_parts fuel payload text)
unfolding raw_parts preferred_cut
raw_parts-IsSplit fuel payload [] pos le = (refl, tt)
raw_parts-IsSplit zero payload (c ∷ t) pos le = absurd (omega (arith, le))
raw_parts-IsSplit (suc fuel) payload (c ∷ t) pos le =
    let cut = cut_at separators (c ∷ t) payload in
    let bound = cut_at-bound separators (c ∷ t) payload pos in
    elim (Bool-cases (leb (length (c ∷ t)) payload)) [
      | inl fits ↦ rw fits (one_part payload c t (ground (arith, fits)))
      | inr long ↦ rw long (
          next_part payload cut c t (raw_parts fuel payload (drop cut (c ∷ t))) bound (
            raw_parts-IsSplit fuel payload (drop cut (c ∷ t)) pos
              (omega (arith, length-drop cut (c ∷ t), bound.0, le))))
    ]
