-- ===== src/Server/Numbers.antt =====
-- Numbers in texts: what server/ChatServer.cc prints with `int64ToString` and reads with `strtol` and
-- `strtoll`.
pub mod Digits
use chat_service.Base.{
  ℕ, zero, suc, ◌+◌, ◌-◌, ◌*◌, ◌/◌, ◌%◌, ◌^◌, ◌≤◌, Text, Bool, false, [], ◌∷◌, ◌++◌, is_empty, ltb,
  ◌==◌, if◌then◌else◌, arith,
}
use chat_service.Json.{is_digit, skip_whitespace}

-- The decimal digits of a number, on fuel above the number.
unfoldable pub decimal_loop : ℕ → ℕ → Text
decimal_loop zero n = []
decimal_loop (suc fuel) n =
    let rest = decimal_loop fuel (n / 10) in
    if ltb n 10 then (n + b'0') ∷ [] else rest ++ (n % 10 + b'0') ∷ []

-- `int64ToString`, on the numbers that are not negative: ids and times.
unfoldable pub int64_to_string : ℕ → Text
unfolding decimal_loop
int64_to_string value = decimal_loop (suc value) value

-- The value of the digits at the start of the text, behind `acc`.
unfoldable pub read_digits : Text → ℕ → ℕ
read_digits [] acc = acc
read_digits (c ∷ s) acc = if is_digit c then read_digits s (acc * 10 + (c - b'0')) else acc

abbrev pub starts_with_digit : Text → Bool
starts_with_digit [] = false
starts_with_digit (c ∷ s) = is_digit c

-- The largest `long` and `long long`; a number above it is read as it.
abbrev pub long_max : ℕ
long_max = 2 ^ 63 - 1

abbrev pub saturate : ℕ → ℕ
saturate n = if ltb long_max n then long_max else n

-- strtol(s, &end, 10), for a caller that treats `end == s` and a value that is not positive alike:
-- 0 stands for both.
unfoldable pub strtol_sign : Text → ℕ
unfolding read_digits
strtol_sign [] = 0
strtol_sign (c ∷ s) =
    if c == b'-'
    then 0
    else if c == b'+'
    then saturate (read_digits s 0)
    else saturate (read_digits (c ∷ s) 0)

unfoldable pub strtol_positive : Text → ℕ
unfolding strtol_sign
strtol_positive value = strtol_sign (skip_whitespace value)

abbrev pub default_history_limit : ℕ
default_history_limit = 50

abbrev pub max_history_limit : ℕ
max_history_limit = 500

unfoldable pub parse_history_limit : Text → ℕ
unfolding strtol_positive is_empty
parse_history_limit value =
    if is_empty value
    then default_history_limit
    else if strtol_positive value == 0
    then default_history_limit
    else if ltb max_history_limit (strtol_positive value)
    then max_history_limit
    else strtol_positive value

unfoldable pub parse_before_timestamp : Text → ℕ
unfolding strtol_positive is_empty
parse_before_timestamp value = if is_empty value then 0 else strtol_positive value

-- Whatever a client sends as a limit, between 1 and 500 messages are asked of the storage.
pub parse_history_limit_bounds :
    (value : Text) → (1 ≤ parse_history_limit value) × (parse_history_limit value ≤ 500)
unfolding parse_history_limit
parse_history_limit_bounds value = limits (strtol_positive value) (is_empty value)
  where
    limits :
        (n : ℕ) (b : Bool)
        → (1 ≤ (if b then 50 else if n == 0 then 50 else if ltb 500 n then 500 else n))
          × ((if b then 50 else if n == 0 then 50 else if ltb 500 n then 500 else n) ≤ 500)
    limits n b = ground arith
