-- ===== src/Commands/Words.antt =====
-- What the helpers of common/Protocol.cc find in lines made of words.
use mathlib.Core.List.{append-nil}
use chat_service.Base.{
  ℕ, Text, false, some, [], ◌∷◌, ◌++◌, is_empty, ◌≡◌, refl, sym, ◌∙◌, ap, arith,
}
use chat_service.Commands.Tokens.{
  word, behind_word, read_token, token_at, is_blank, trim_left, trim_right, trim_copy, rest_of_line,
}
use chat_service.Json.{is_space, skip_whitespace}

-- A word has no space in it.
abbrev pub HasNoSpace : Text → Type 0
HasNoSpace [] = Unit {0}
HasNoSpace (c ∷ s) = (is_space c ≡ false) × HasNoSpace s

abbrev pub IsToken : Text → Type 0
IsToken s = (is_empty s ≡ false) × HasNoSpace s

-- A text that trimming leaves as it is, with something in it.
abbrev pub IsTrimmed : Text → Type 0
IsTrimmed s = (is_empty s ≡ false) × (trim_copy s ≡ s)

word-end : (s : Text) → HasNoSpace s → (word s ≡ s) × (behind_word s ≡ [])
unfolding word behind_word
word-end [] h = (refl, refl)
word-end (c ∷ s) h = ground (arith, word-end s h.1)

word-append :
    (s t : Text)
    → HasNoSpace s
    → (word (s ++ 0x20 ∷ t) ≡ s) × (behind_word (s ++ 0x20 ∷ t) ≡ 0x20 ∷ t)
unfolding word behind_word
word-append [] t h = (refl, refl)
word-append (c ∷ s) t h = ground (arith, word-append s t h.1)

-- A word at the end of a line.
pub read_token-end : (s : Text) → IsToken s → read_token s ≡ some (s, [])
unfolding read_token token_at skip_whitespace is_empty
read_token-end [] h = absurd (ground arith)
read_token-end (c ∷ s) h = ground (arith, word-end (c ∷ s) h.1)

-- A word with more behind a space.
pub read_token-append : (s t : Text) → IsToken s → read_token (s ++ 0x20 ∷ t) ≡ some (s, 0x20 ∷ t)
unfolding read_token token_at skip_whitespace is_empty
read_token-append [] t h = absurd (ground arith)
read_token-append (c ∷ s) t h = ground (arith, word-append (c ∷ s) t h.1)

read_token-space : (s : Text) → read_token (0x20 ∷ s) ≡ read_token s
unfolding read_token skip_whitespace
read_token-space s = refl

-- The same words behind a space.
pub read_token-last : (s : Text) → IsToken s → read_token (0x20 ∷ s) ≡ some (s, [])
read_token-last s h = read_token-space s ∙ read_token-end s h

pub read_token-next :
    (s t : Text) → IsToken s → read_token (0x20 ∷ s ++ 0x20 ∷ t) ≡ some (s, 0x20 ∷ t)
read_token-next s t h = read_token-space (s ++ 0x20 ∷ t) ∙ read_token-append s t h

trim_left-space : (s : Text) → trim_copy (0x20 ∷ s) ≡ trim_copy s
unfolding trim_copy trim_left
trim_left-space s = refl

pub rest_of_line-trimmed : (s : Text) → IsTrimmed s → rest_of_line (0x20 ∷ s) ≡ s
unfolding rest_of_line
rest_of_line-trimmed s h = rw (trim_left-space s) h.1

trim_right-append :
    (s t : Text) → is_empty t ≡ false → trim_right t ≡ t → trim_right (s ++ t) ≡ s ++ t
unfolding trim_right is_empty
trim_right-append [] t full h = h
trim_right-append (c ∷ []) t full h = ground (arith, h, full)
trim_right-append (c ∷ d ∷ s) t full h = ground (arith, trim_right-append (d ∷ s) t full h)

-- A line that begins with something visible and ends with something trimmed.
pub trim_copy-append :
    (c : ℕ) (s t : Text)
    → is_blank c ≡ false
    → is_empty t ≡ false
    → trim_right t ≡ t
    → trim_copy (c ∷ s ++ t) ≡ c ∷ s ++ t
unfolding trim_copy trim_left
trim_copy-append c s t visible full h = rw visible (trim_right-append (c ∷ s) t full h)

HasNoSpace-trim_right : (s : Text) → HasNoSpace s → trim_right s ≡ s
unfolding trim_right is_empty
HasNoSpace-trim_right [] h = refl
HasNoSpace-trim_right (c ∷ s) h = ground (arith, HasNoSpace-trim_right s h.1)

trim_right_idem : (s : Text) → trim_right (trim_right s) ≡ trim_right s
unfolding trim_right is_empty
trim_right_idem [] = refl
trim_right_idem (c ∷ s) = ground (arith, trim_right_idem s)

pub IsToken-trim_right : (s : Text) → IsToken s → trim_right s ≡ s
IsToken-trim_right s h = HasNoSpace-trim_right s h.1

pub trim_copy-trim_right : (s : Text) → trim_copy s ≡ s → trim_right s ≡ s
unfolding trim_copy
trim_copy-trim_right s h = ap trim_right (sym h) ∙ trim_right_idem (trim_left s) ∙ h

trim_right-word :
    (s : Text) → is_empty s ≡ false → trim_right s ≡ s → trim_right (0x20 ∷ s) ≡ 0x20 ∷ s
unfolding trim_right
trim_right-word s full h = rw (h, full) refl

-- Arguments behind a space end as their last word does.
pub trim_right-last : (s : Text) → IsToken s → trim_right (0x20 ∷ s) ≡ 0x20 ∷ s
trim_right-last s h = trim_right-word s h.0 (IsToken-trim_right s h)

pub trim_right-next :
    (s t : Text)
    → IsToken s
    → is_empty t ≡ false
    → trim_right t ≡ t
    → trim_right (0x20 ∷ s ++ 0x20 ∷ t) ≡ 0x20 ∷ s ++ 0x20 ∷ t
unfolding is_empty
trim_right-next s t h full k =
    trim_right-append (0x20 ∷ s) (0x20 ∷ t) refl (trim_right-word t full k)

-- A line of a word and its arguments is trimmed.
pub trim_copy-line : (w t : Text) → IsToken w → trim_right t ≡ t → trim_copy (w ++ t) ≡ w ++ t
unfolding trim_copy trim_left is_empty
trim_copy-line [] t h k = absurd (ground arith)
trim_copy-line (c ∷ w) [] h k = rw (append-nil w) (ground (arith, IsToken-trim_right (c ∷ w) h))
trim_copy-line (c ∷ w) (d ∷ t) h k = trim_copy-append c w (d ∷ t) (ground arith) refl k
