-- ===== src/Json/Objects.antt =====
-- `parseJsonObject`, common/Json.cc, on a stack with a level for each character of a value.
use chat_service.Base.{
  ℕ, zero, suc, Text, TextMap, [], ◌∷◌, ◌==◌, length, insert, codes, is_empty, if◌then◌else◌,
}
use chat_service.Json.Parsed.{Parsed, ok, err, out_of_fuel, ◌>>=◌}
use chat_service.Json.Lexical.{skip_whitespace, parse_json_string}
use chat_service.Json.Values.{
  closed, another, wrong, separator_at, colon, parse_json_value_as_string,
}

abbrev pub JsonObject : Type 0
JsonObject = TextMap Text

-- The end of the text, behind the closing brace.
unfoldable pub finish : JsonObject → Text → Parsed JsonObject
unfolding skip_whitespace is_empty
finish object text =
    if is_empty (skip_whitespace text)
    then ok object []
    else err (codes "unexpected content after object")

-- One member: the key, the colon and the value, which is written into the object.
unfoldable pub member : Text → JsonObject → Parsed JsonObject
unfolding colon
member text object = parse_json_string text >>= λ key rest.
    colon (codes "expected colon") (skip_whitespace rest) >>= λ _ start.
    parse_json_value_as_string start >>= λ value end. ok (insert key value object) end

-- The loop over the members.
unfoldable pub members_loop : ℕ → Text → JsonObject → Parsed JsonObject
unfolding finish member separator_at
members_loop zero text object = out_of_fuel
members_loop (suc fuel) [] object = err (codes "unterminated object")
members_loop (suc fuel) (c ∷ text) object = elim (member (c ∷ text) object) [
  | err e ↦ err e
  | out_of_fuel ↦ out_of_fuel
  | ok object' rest ↦
      elim (separator_at b'}' (codes "unterminated object") (codes "expected comma")
        (skip_whitespace rest)) [
          | closed end ↦ finish object' end
          | another next ↦ members_loop fuel next object'
          | wrong e ↦ err e
        ]
]

-- Behind the opening brace and its white space.
unfoldable pub object_body : Text → Parsed JsonObject
unfolding members_loop
object_body [] = members_loop 1 [] []
object_body (c ∷ rest) =
    if c == b'}' then finish [] rest else members_loop (suc (length (c ∷ rest))) (c ∷ rest) []

unfoldable pub object_start : Text → Parsed JsonObject
unfolding object_body
object_start [] = err (codes "expected object")
object_start (c ∷ rest) =
    if c == b'{' then object_body (skip_whitespace rest) else err (codes "expected object")

unfoldable pub parse_json_object : Text → Parsed JsonObject
unfolding object_start
parse_json_object text = object_start (skip_whitespace text)
