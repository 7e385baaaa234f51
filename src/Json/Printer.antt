-- ===== src/Json/Printer.antt =====
-- `escapeJsonString`, `serializeJsonObject` and `makeJsonLine`, common/Json.cc.
use chat_service.Base.{ℕ, ◌/◌, ◌%◌, ◌+◌, ◌-◌, Text, [], ◌∷◌, ◌++◌, ◌==◌, ltb, if◌then◌else◌}
use chat_service.Json.Objects.{JsonObject}

-- `hex[n]` of "0123456789abcdef"
abbrev pub hex_digit : ℕ → ℕ
hex_digit n = if ltb n 10 then n + b'0' else n - 10 + b'a'

unfoldable pub escape_char : ℕ → Text
escape_char ch =
    if ch == 0x22
    then 0x5c ∷ 0x22 ∷ []
    else if ch == 0x5c
    then 0x5c ∷ 0x5c ∷ []
    else if ch == 0x08
    then 0x5c ∷ b'b' ∷ []
    else if ch == 0x0c
    then 0x5c ∷ b'f' ∷ []
    else if ch == 0x0a
    then 0x5c ∷ b'n' ∷ []
    else if ch == 0x0d
    then 0x5c ∷ b'r' ∷ []
    else if ch == 0x09
    then 0x5c ∷ b't' ∷ []
    else if ltb ch 0x20
    then 0x5c ∷ b'u' ∷ b'0' ∷ b'0' ∷ hex_digit (ch / 16) ∷ hex_digit (ch % 16) ∷ []
    else ch ∷ []

unfoldable pub escape_json_string : Text → Text
unfolding escape_char
escape_json_string [] = []
escape_json_string (ch ∷ value) = escape_char ch ++ escape_json_string value

-- A text in quotes.
unfoldable pub quoted : Text → Text
unfolding escape_json_string
quoted value = 0x22 ∷ (escape_json_string value ++ 0x22 ∷ [])

unfoldable pub field : Text → Text → Text
unfolding quoted
field key value = quoted key ++ b':' ∷ quoted value

-- The fields behind the first, each with the comma before it.
unfoldable pub more_fields : JsonObject → Text
unfolding field
more_fields [] = []
more_fields ((key, value) ∷ object) = b',' ∷ (field key value ++ more_fields object)

unfoldable pub all_fields : JsonObject → Text
unfolding more_fields
all_fields [] = []
all_fields ((key, value) ∷ object) = field key value ++ more_fields object

unfoldable pub serialize_json_object : JsonObject → Text
unfolding all_fields
serialize_json_object object = b'{' ∷ (all_fields object ++ b'}' ∷ [])

unfoldable pub make_json_line : JsonObject → Text
unfolding serialize_json_object
make_json_line object = serialize_json_object object ++ 0x0a ∷ []
