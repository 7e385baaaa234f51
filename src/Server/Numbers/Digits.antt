-- ===== src/Server/Numbers/Digits.antt =====
-- What `int64ToString` of server/ChatServer.cc writes: digits, which the readers of numbers read back.
use chat_service.Base.{
  ℕ, zero, suc, ◌+◌, ◌-◌, ◌*◌, ◌/◌, ◌%◌, ◌<◌, Text, true, false, ◌||◌, [], ◌∷◌, ◌++◌, length,
  length-append, take, ltb, ◌==◌, Bool-cases, Every, Every-append, ◌≡◌, refl, ap, ◌∙◌, arith, inl,
  inr, codes, is_empty,
}
use chat_service.Json.Lexical.{
  is_digit, skip_digits, skip_minus, skip_whitespace, some_digits, fraction, exponent, between,
  parse_json_number_as_string,
}
use chat_service.Json.Mixed.{Entry, IsReadable}
use chat_service.Json.Printer.{quoted}
use chat_service.Json.RoundTrip.{skip_whitespace-quoted, value-quoted}
use chat_service.Json.Parsed.{ok}
use chat_service.Json.Values.{parse_json_value_as_string, parse_json_value_on}
use chat_service.Server.Numbers.{decimal_loop, int64_to_string, read_digits}

abbrev pub AreDigits : Text → Type 0
AreDigits s = Every (λ c. is_digit c ≡ true) s

decimal_loop-small : (fuel n : ℕ) → ltb n 10 ≡ true → decimal_loop (suc fuel) n ≡ (n + b'0') ∷ []
unfolding decimal_loop
decimal_loop-small fuel n h = rw h refl

decimal_loop-large :
    (fuel n : ℕ)
    → ltb n 10 ≡ false
    → decimal_loop (suc fuel) n ≡ decimal_loop fuel (n / 10) ++ (n % 10 + b'0') ∷ []
unfolding decimal_loop
decimal_loop-large fuel n h = rw h refl

last_digit : (n : ℕ) → AreDigits ((n % 10 + b'0') ∷ [])
last_digit n = (ground arith, tt)

decimal_loop-AreDigits : (fuel n : ℕ) → AreDigits (decimal_loop fuel n)
decimal_loop-AreDigits zero n = unfold decimal_loop in tt
decimal_loop-AreDigits (suc fuel) n = elim (Bool-cases (ltb n 10)) [
  | inl k ↦ rw (decimal_loop-small fuel n k) (ground arith, tt)
  | inr k ↦ rw (decimal_loop-large fuel n k) (
      Every-append (λ c. is_digit c ≡ true) (decimal_loop fuel (n / 10)) ((n % 10 + b'0') ∷ [])
        (decimal_loop-AreDigits fuel (n / 10)) (last_digit n))
]

pub int64_to_string-AreDigits : (n : ℕ) → AreDigits (int64_to_string n)
unfolding int64_to_string
int64_to_string-AreDigits n = decimal_loop-AreDigits (suc n) n

is_empty-append : (s : Text) (c : ℕ) → is_empty (s ++ c ∷ []) ≡ false
unfolding is_empty
is_empty-append [] c = refl
is_empty-append (d ∷ s) c = refl

pub int64_to_string-is_empty : (n : ℕ) → is_empty (int64_to_string n) ≡ false
unfolding int64_to_string
int64_to_string-is_empty n = elim (Bool-cases (ltb n 10)) [
  | inl k ↦ ap is_empty (decimal_loop-small n n k) ∙ is_empty-append [] (n + b'0')
  | inr k ↦
      ap is_empty (decimal_loop-large n n k)
      ∙ is_empty-append (decimal_loop n (n / 10)) (n % 10 + b'0')
]

-- Digits are read up to the first character that is none.
pub skip_digits-append :
    (s rest : Text) (c : ℕ)
    → AreDigits s
    → is_digit c ≡ false
    → skip_digits (s ++ c ∷ rest) ≡ c ∷ rest
unfolding skip_digits
skip_digits-append [] rest c a h = rw h refl
skip_digits-append (d ∷ s) rest c a h = rw a.0 (skip_digits-append s rest c a.1 h)

read_digits-append :
    (s t : Text) (acc : ℕ)
    → AreDigits s
    → read_digits (s ++ t) acc ≡ read_digits t (read_digits s acc)
unfolding read_digits
read_digits-append [] t acc a = refl
read_digits-append (d ∷ s) t acc a = rw a.0 (read_digits-append s t (acc * 10 + (d - b'0')) a.1)

small_digit : (n : ℕ) → ltb n 10 ≡ true → read_digits ((n + b'0') ∷ []) 0 ≡ n
unfolding read_digits
small_digit n h = ground arith

next_digit : (n : ℕ) → read_digits ((n % 10 + b'0') ∷ []) (n / 10) ≡ n
unfolding read_digits
next_digit n = ground arith

read_digits-decimal_loop : (fuel n : ℕ) → n < fuel → read_digits (decimal_loop fuel n) 0 ≡ n
read_digits-decimal_loop zero n h = absurd (omega arith)
read_digits-decimal_loop (suc fuel) n h = elim (Bool-cases (ltb n 10)) [
  | inl k ↦ ap (λ s. read_digits s 0) (decimal_loop-small fuel n k) ∙ small_digit n k
  | inr k ↦
      ap (λ s. read_digits s 0) (decimal_loop-large fuel n k)
      ∙ read_digits-append (decimal_loop fuel (n / 10)) ((n % 10 + b'0') ∷ []) 0
          (decimal_loop-AreDigits fuel (n / 10))
      ∙ ap (read_digits ((n % 10 + b'0') ∷ []))
          (read_digits-decimal_loop fuel (n / 10) (ground arith))
      ∙ next_digit n
]

-- The number itself.
pub read_digits-int64_to_string : (n : ℕ) → read_digits (int64_to_string n) 0 ≡ n
unfolding int64_to_string
read_digits-int64_to_string n = read_digits-decimal_loop (suc n) n (omega arith)

take-prefix : (s t : Text) → take (length s) (s ++ t) ≡ s
take-prefix [] [] = refl
take-prefix [] (c ∷ t) = refl
take-prefix (c ∷ s) t = ap (λ x. c ∷ x) (take-prefix s t)

between-append : (s t : Text) → between (s ++ t) t ≡ s
unfolding between
between-append s t =
    let e : length (s ++ t) - length t ≡ length s = omega (arith, length-append s t) in
    ap (λ n. take n (s ++ t)) e ∙ take-prefix s t

skip_minus-digits :
    (s rest : Text) → AreDigits s → is_empty s ≡ false → skip_minus (s ++ rest) ≡ s ++ rest
unfolding skip_minus is_empty
skip_minus-digits [] rest a h = absurd (ground arith)
skip_minus-digits (d ∷ s) rest a h = ground (arith, a.0)

skip_whitespace-digits :
    (s rest : Text) → AreDigits s → is_empty s ≡ false → skip_whitespace (s ++ rest) ≡ s ++ rest
unfolding skip_whitespace is_empty
skip_whitespace-digits [] rest a h = absurd (ground arith)
skip_whitespace-digits (d ∷ s) rest a h = ground (arith, a.0)

some_digits-some :
    (e start rest : Text)
    → skip_digits start ≡ rest
    → length rest < length start
    → some_digits e start ≡ ok tt rest
unfolding some_digits
some_digits-some e start rest h l = rw h (ground arith)

full-length : (s : Text) → is_empty s ≡ false → 0 < length s
unfolding is_empty
full-length [] h = absurd (ground arith)
full-length (c ∷ s) h = omega arith

fraction-none : (c : ℕ) (s : Text) → (c == b'.') ≡ false → fraction (c ∷ s) ≡ ok tt (c ∷ s)
unfolding fraction
fraction-none c s h = rw h refl

exponent-none :
    (c : ℕ) (s : Text) → (c == b'e' || c == b'E') ≡ false → exponent (c ∷ s) ≡ ok tt (c ∷ s)
unfolding exponent
exponent-none c s h = rw h refl

module _ (s rest : Text) (c : ℕ) (digits : AreDigits s) (full : is_empty s ≡ false) where
  -- Digits before a comma or a brace are a whole number.
  number-digits :
      is_digit c ≡ false
      → (c == b'.') ≡ false
      → (c == b'e' || c == b'E') ≡ false
      → parse_json_number_as_string (s ++ c ∷ rest) ≡ ok s (c ∷ rest)
  unfolding parse_json_number_as_string
  number-digits h point letter =
      rw
        (
          skip_minus-digits s (c ∷ rest) digits full,
          some_digits-some (codes "expected string or number") (s ++ c ∷ rest) (c ∷ rest)
              (skip_digits-append s rest c digits h)
              (omega (arith, length-append s (c ∷ rest), full-length s full)),
          fraction-none c rest point,
          exponent-none c rest letter,
        )
        (ap (λ t. ok t (c ∷ rest)) (between-append s (c ∷ rest)))

value-digits :
    (s rest : Text)
    → AreDigits s
    → is_empty s ≡ false
    → parse_json_value_as_string (s ++ rest) ≡ parse_json_number_as_string (s ++ rest)
unfolding parse_json_value_as_string parse_json_value_on is_empty
value-digits [] rest a h = absurd (ground arith)
value-digits (d ∷ s) rest a h = ground (arith, a.0)

-- A member that is a text in quotes, and one that is a number without.
abbrev pub text_entry : Text → Text → Entry
text_entry key value = record { key = key; shown = quoted value; value = value }

abbrev pub number_entry : Text → ℕ → Entry
number_entry key n = record { key = key; shown = int64_to_string n; value = int64_to_string n }

pub text_entry-IsReadable : (key value : Text) → IsReadable (text_entry key value)
text_entry-IsReadable key value = record {
  starts = λ rest. skip_whitespace-quoted value rest;
  behind_comma = λ rest. value-quoted value (b',' ∷ rest);
  behind_brace = λ rest. value-quoted value (b'}' ∷ rest);
}

pub number_entry-IsReadable : (key : Text) (n : ℕ) → IsReadable (number_entry key n)
number_entry-IsReadable key n =
    let digits = int64_to_string-AreDigits n in
    let full = int64_to_string-is_empty n in
    record {
      starts = λ rest. skip_whitespace-digits (int64_to_string n) rest digits full;
      behind_comma = λ rest.
          value-digits (int64_to_string n) (b',' ∷ rest) digits full
          ∙ number-digits (int64_to_string n) rest b',' digits full refl refl refl;
      behind_brace = λ rest.
          value-digits (int64_to_string n) (b'}' ∷ rest) digits full
          ∙ number-digits (int64_to_string n) rest b'}' digits full refl refl refl;
    }
