-- ===== src/Json/Progress.antt =====
-- Every successful read of common/Json.cc moves `*pos` forward, and the loop of `parseJsonString`
-- ends within its fuel.
use chat_service.Base.{
  ℕ, zero, suc, ◌≤◌, ◌<◌, Text, Option, none, some, [], ◌∷◌, ◌==◌, ◌||◌, length, codes, inl, inr,
  arith, Bool-cases, ltb,
}
use chat_service.Json.Parsed.{Parsed, ok, err, out_of_fuel, ◌>>=◌}
use chat_service.Json.Lexical.{
  skip_whitespace, hex_code, unicode_char, parse_unicode_escape, simple_escape, Round, returned,
  continued, after_unicode, escape_case, escape_round, string_step, string_loop, parse_json_string,
  skip_digits, skip_minus, skip_sign, some_digits, fraction, exponent, parse_json_number_as_string,
  between,
}

-- A result that leaves less than `n` characters; it is no result of the fuel.
abbrev pub Leaves {ℓ} : {A : Type ℓ} → ℕ → Parsed A → Type 0
Leaves n (ok v rest) = length rest < n
Leaves n (err e) = Unit {0}
Leaves n out_of_fuel = ⊥

abbrev RoundLeaves : ℕ → Round → Type 0
RoundLeaves n (returned r) = Leaves n r
RoundLeaves n (continued output rest) = length rest < n

pub length-skip_whitespace : (s : Text) → length (skip_whitespace s) ≤ length s
unfolding skip_whitespace
length-skip_whitespace [] = omega arith
length-skip_whitespace (c ∷ s) = ground (arith, length-skip_whitespace s)

length-skip_digits : (s : Text) → length (skip_digits s) ≤ length s
unfolding skip_digits
length-skip_digits [] = omega arith
length-skip_digits (c ∷ s) = ground (arith, length-skip_digits s)

-- A read that is followed by another.
pub Leaves-bind {ℓ κ} :
    {A : Type ℓ} {B : Type κ} (n k : ℕ) (r : Parsed A) (f : A → Text → Parsed B)
    → Leaves n r
    → ((v : A) (rest : Text) → length rest < n → Leaves k (f v rest))
    → Leaves k (r >>= f)
Leaves-bind n k (ok v rest) f h next = next v rest h
Leaves-bind n k (err e) f h next = tt
Leaves-bind n k out_of_fuel f h next = absurd h

pub Leaves-mono {ℓ} : {A : Type ℓ} (n k : ℕ) (r : Parsed A) → n ≤ k → Leaves n r → Leaves k r
Leaves-mono n k (ok v rest) h l = omega arith
Leaves-mono n k (err e) h l = tt
Leaves-mono n k out_of_fuel h l = absurd l

RoundLeaves-mono : (n k : ℕ) (r : Round) → n ≤ k → RoundLeaves n r → RoundLeaves k r
RoundLeaves-mono n k (returned r) h l = Leaves-mono n k r h l
RoundLeaves-mono n k (continued o rest) h l = omega arith

unicode-Leaves :
    (text output : Text)
    → RoundLeaves (suc (length text)) (after_unicode (parse_unicode_escape text output))
unfolding parse_unicode_escape after_unicode
unicode-Leaves [] output = tt
unicode-Leaves (a ∷ []) output = tt
unicode-Leaves (a ∷ b ∷ []) output = tt
unicode-Leaves (a ∷ b ∷ c ∷ []) output = tt
unicode-Leaves (a ∷ b ∷ c ∷ d ∷ rest) output = digits (hex_code (a ∷ b ∷ c ∷ d ∷ []) 0)
  where
    digits :
        (o : Option ℕ)
        → RoundLeaves
            (suc (suc (suc (suc (suc (length rest))))))
            (after_unicode (unicode_char o output rest))
    digits none = tt
    digits (some code) = elim (Bool-cases (ltb 0x7f code)) [
      | inl h ↦ rw h tt
      | inr h ↦ rw h (omega arith)
    ]

escape_case-Leaves :
    (o : Option ℕ) (c : ℕ) (text output : Text)
    → RoundLeaves (suc (length text)) (escape_case o c text output)
unfolding escape_case
escape_case-Leaves (some d) c text output = omega arith
escape_case-Leaves none c text output = elim (Bool-cases (c == b'u')) [
  | inl h ↦ rw h (unicode-Leaves text output)
  | inr h ↦ rw h tt
]

escape_round-Leaves :
    (text output : Text) → RoundLeaves (suc (length text)) (escape_round text output)
unfolding escape_round
escape_round-Leaves [] output = tt
escape_round-Leaves (c ∷ text) output =
    RoundLeaves-mono (suc (length text)) _ _ (omega arith)
      (escape_case-Leaves (simple_escape c) c text output)

string_step-Leaves : (text output : Text) → RoundLeaves (length text) (string_step text output)
unfolding string_step
string_step-Leaves [] output = tt
string_step-Leaves (c ∷ text) output = elim (Bool-cases (c == 0x22)) [
  | inl h ↦ rw h (omega arith)
  | inr h ↦ rw h (elim (Bool-cases (c == 0x5c)) [
    | inl k ↦ rw k (escape_round-Leaves text output)
    | inr k ↦ rw k (elim (Bool-cases (ltb c 0x20)) [ inl l ↦ rw l tt | inr l ↦ rw l (omega arith) ])
  ])
]

string_loop-Leaves :
    (fuel : ℕ) (text output : Text)
    → length text < fuel
    → Leaves (suc (length text)) (string_loop fuel text output)
unfolding string_loop
string_loop-Leaves zero text output h = absurd (omega arith)
string_loop-Leaves (suc fuel) text output h =
    next (λ rest o. string_loop-Leaves fuel rest o) (string_step text output)
      (string_step-Leaves text output)
  where
    next :
        ((rest o : Text)
          → length rest < fuel
          → Leaves (suc (length rest)) (string_loop fuel rest o))
        → (r : Round) → RoundLeaves (length text) r
        → Leaves
            (suc (length text))
            (elim r [ returned p ↦ p | continued o rest ↦ string_loop fuel rest o ])
    next ih (returned p) l = Leaves-mono (length text) _ p (omega arith) l
    next ih (continued o rest) l =
        Leaves-mono (suc (length rest)) _ _ (omega arith) (ih rest o (omega arith))

pub parse_json_string-Leaves : (text : Text) → Leaves (length text) (parse_json_string text)
unfolding parse_json_string
parse_json_string-Leaves [] = tt
parse_json_string-Leaves (c ∷ text) = elim (Bool-cases (c == 0x22)) [
  | inl h ↦ rw h (string_loop-Leaves (suc (length text)) text [] (omega arith))
  | inr h ↦ rw h tt
]

length-skip_minus : (s : Text) → length (skip_minus s) ≤ length s
unfolding skip_minus
length-skip_minus [] = omega arith
length-skip_minus (c ∷ s) = ground arith

length-skip_sign : (s : Text) → length (skip_sign s) ≤ length s
unfolding skip_sign
length-skip_sign [] = omega arith
length-skip_sign (c ∷ s) = ground arith

some_digits-Leaves : (e s : Text) → Leaves (length s) (some_digits e s)
unfolding some_digits
some_digits-Leaves e s = elim (Bool-cases (length (skip_digits s) == length s)) [
  | inl h ↦ rw h tt
  | inr h ↦ rw h (ground (arith, length-skip_digits s))
]

fraction-Leaves : (s : Text) → Leaves (suc (length s)) (fraction s)
unfolding fraction
fraction-Leaves [] = omega arith
fraction-Leaves (c ∷ s) = elim (Bool-cases (c == b'.')) [
  | inl h ↦ rw h (Leaves-mono (length s) _ _ (omega arith) (some_digits-Leaves _ s))
  | inr h ↦ rw h (omega arith)
]

exponent-Leaves : (s : Text) → Leaves (suc (length s)) (exponent s)
unfolding exponent
exponent-Leaves [] = omega arith
exponent-Leaves (c ∷ s) = elim (Bool-cases (c == b'e' || c == b'E')) [
  | inl h ↦ rw h (
      Leaves-mono (length (skip_sign s)) _ _ (omega (arith, length-skip_sign s))
        (some_digits-Leaves _ (skip_sign s)))
  | inr h ↦ rw h (omega arith)
]

pub parse_json_number_as_string-Leaves :
    (text : Text) → Leaves (length text) (parse_json_number_as_string text)
unfolding parse_json_number_as_string
parse_json_number_as_string-Leaves text =
    let n = length text in
    Leaves-bind n n (some_digits (codes "expected string or number") (skip_minus text))
      (λ _ a. fraction a >>= λ _ b. exponent b >>= λ _ rest. ok (between text rest) rest)
      (Leaves-mono (length (skip_minus text)) n _ (length-skip_minus text)
        (some_digits-Leaves (codes "expected string or number") (skip_minus text)))
      λ _ a la.
        Leaves-bind n n (fraction a) (λ _ b. exponent b >>= λ _ rest. ok (between text rest) rest)
          (Leaves-mono (suc (length a)) n (fraction a) (omega arith) (fraction-Leaves a))
          λ _ b lb.
            Leaves-bind n n (exponent b) (λ _ rest. ok (between text rest) rest)
              (Leaves-mono (suc (length b)) n (exponent b) (omega arith) (exponent-Leaves b))
              λ _ c lc. lc
