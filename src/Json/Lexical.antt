-- ===== src/Json/Lexical.antt =====
-- The strings and numbers of common/Json.cc.
use chat_service.Base.{
  ℕ, zero, suc, ◌+◌, ◌-◌, ◌*◌, Text, Bool, ◌&&◌, ◌||◌, Option, none, some, [], ◌∷◌, ◌++◌, leb, ltb,
  ◌==◌, length, take, codes, if◌then◌else◌,
}
use chat_service.Json.Parsed.{Parsed, ok, err, out_of_fuel, ◌>>=◌}

-- std::isspace in the C locale
abbrev pub is_space : ℕ → Bool
is_space c = c == 0x20 || (leb 0x09 c && leb c 0x0d)

abbrev pub is_digit : ℕ → Bool
is_digit c = leb b'0' c && leb c b'9'

unfoldable pub skip_whitespace : Text → Text
skip_whitespace [] = []
skip_whitespace (c ∷ s) = if is_space c then skip_whitespace s else c ∷ s

-- `text.substr(start, *pos - start)`
unfoldable pub between : Text → Text → Text
between start pos = take (length start - length pos) start

unfoldable pub hex_value : ℕ → Option ℕ
hex_value ch =
    if leb b'0' ch && leb ch b'9'
    then some (ch - b'0')
    else if leb b'a' ch && leb ch b'f'
    then some (ch - b'a' + 10)
    else if leb b'A' ch && leb ch b'F'
    then some (ch - b'A' + 10)
    else none

-- `code = (code << 4) + digit`, over the four digits
unfoldable pub hex_code : Text → ℕ → Option ℕ
unfolding hex_value
hex_code [] code = some code
hex_code (d ∷ ds) code = elim (hex_value d) [
  | none ↦ none
  | some digit ↦ hex_code ds (code * 16 + digit)
]

unfoldable pub unicode_char : Option ℕ → Text → Text → Parsed Text
unicode_char none output rest = err (codes "invalid unicode escape")
unicode_char (some code) output rest =
    if ltb 0x7f code
    then err (codes "unicode escapes above ASCII are not supported")
    else ok (output ++ code ∷ []) rest

unfoldable pub parse_unicode_escape : Text → Text → Parsed Text
unfolding hex_code unicode_char
parse_unicode_escape (a ∷ b ∷ c ∷ d ∷ rest) output =
    unicode_char (hex_code (a ∷ b ∷ c ∷ d ∷ []) 0) output rest
parse_unicode_escape _ output = err (codes "incomplete unicode escape")

-- The cases of the `switch` that push one character.
unfoldable pub simple_escape : ℕ → Option ℕ
simple_escape escaped =
    if escaped == 0x22 || escaped == 0x5c || escaped == 0x2f
    then some escaped
    else if escaped == b'b'
    then some 0x08
    else if escaped == b'f'
    then some 0x0c
    else if escaped == b'n'
    then some 0x0a
    else if escaped == b'r'
    then some 0x0d
    else if escaped == b't'
    then some 0x09
    else none

-- One round of the loop of `parseJsonString`: it returns, or goes on with the output so far.
pub data Round : Type 0 where
  returned : Parsed Text → Round
  continued : Text → Text → Round

unfoldable pub after_unicode : Parsed Text → Round
after_unicode (ok output rest) = continued output rest
after_unicode (err e) = returned (err e)
after_unicode out_of_fuel = returned out_of_fuel

-- The `switch (escaped)`, given what its simple cases push.
unfoldable pub escape_case : Option ℕ → ℕ → Text → Text → Round
unfolding parse_unicode_escape after_unicode
escape_case (some c) escaped rest output = continued (output ++ c ∷ []) rest
escape_case none escaped rest output =
    if escaped == b'u'
    then after_unicode (parse_unicode_escape rest output)
    else returned (err (codes "invalid escape sequence"))

-- Behind the backslash.
unfoldable pub escape_round : Text → Text → Round
unfolding simple_escape escape_case
escape_round [] output = returned (err (codes "incomplete escape sequence"))
escape_round (escaped ∷ rest) output = escape_case (simple_escape escaped) escaped rest output

unfoldable pub string_step : Text → Text → Round
unfolding escape_round
string_step [] output = returned (err (codes "unterminated string"))
string_step (ch ∷ rest) output =
    if ch == 0x22
    then returned (ok output rest)
    else if ch == 0x5c
    then escape_round rest output
    else if ltb ch 0x20
    then returned (err (codes "control character in string"))
    else continued (output ++ ch ∷ []) rest

unfoldable pub string_loop : ℕ → Text → Text → Parsed Text
unfolding string_step
string_loop zero text output = out_of_fuel
string_loop (suc fuel) text output = elim (string_step text output) [
  | returned r ↦ r
  | continued output' rest ↦ string_loop fuel rest output'
]

-- Each round consumes a character, so one round more than there are characters is enough.
unfoldable pub parse_json_string : Text → Parsed Text
unfolding string_loop
parse_json_string [] = err (codes "expected string")
parse_json_string (c ∷ rest) =
    if c == 0x22 then string_loop (suc (length rest)) rest [] else err (codes "expected string")

unfoldable pub skip_digits : Text → Text
skip_digits [] = []
skip_digits (c ∷ s) = if is_digit c then skip_digits s else c ∷ s

unfoldable pub skip_minus : Text → Text
skip_minus [] = []
skip_minus (c ∷ s) = if c == b'-' then s else c ∷ s

unfoldable pub skip_sign : Text → Text
skip_sign [] = []
skip_sign (c ∷ s) = if c == b'+' || c == b'-' then s else c ∷ s

-- Digits, at least one; `e` is the error if there is none.
unfoldable pub some_digits : Text → Text → Parsed (Unit {0})
unfolding skip_digits
some_digits e start =
    if length (skip_digits start) == length start then err e else ok tt (skip_digits start)

unfoldable pub fraction : Text → Parsed (Unit {0})
unfolding some_digits
fraction [] = ok tt []
fraction (c ∷ s) = if c == b'.' then some_digits (codes "invalid number") s else ok tt (c ∷ s)

unfoldable pub exponent : Text → Parsed (Unit {0})
unfolding some_digits skip_sign
exponent [] = ok tt []
exponent (c ∷ s) =
    if c == b'e' || c == b'E'
    then some_digits (codes "invalid number") (skip_sign s)
    else ok tt (c ∷ s)

unfoldable pub parse_json_number_as_string : Text → Parsed Text
unfolding some_digits fraction exponent skip_minus between
parse_json_number_as_string text =
    some_digits (codes "expected string or number") (skip_minus text) >>= λ _ after_integer.
    fraction after_integer >>= λ _ after_fraction.
    exponent after_fraction >>= λ _ rest. ok (between text rest) rest
