-- ===== src/Tests/JsonRuns.antt =====
-- Runs of common/Json.cc.
use chat_service.Base.{
  Text, arith, [], ◌∷◌, ◌++◌, codes, insert, text_eq, text_lt, IsSorted, ◌≡◌, ◌≢◌, refl,
}
use chat_service.Json.{
  JsonObject, ok, err, out_of_fuel, parse_json_object, parse_json_string,
  parse_json_value_as_string, parse_json_value_on, parse_json_number_as_string,
  serialize_json_object,
}
use chat_service.Json.Printer.{quoted}
use chat_service.Json.Framing.{HasNoControl, serialize-HasNoControl}
use chat_service.Json.RoundTrip.{parse-serialize, parse_json_string-quoted}
use chat_service.Json.Stack.{brackets, parse_json_value_on-levels, parse_json_value_on-brackets}

parse_mixed :
    parse_json_object (codes " {\"b\" : [1, {\"c\":null}] , \"a\":\"x\\u0041\\n\", \"n\":-1.5e+3} ")
    ≡ ok
        ((codes "a", codes "xA\n")
          ∷ (codes "b", codes "[1, {\"c\":null}]")
          ∷ (codes "n", codes "-1.5e+3")
          ∷ [])
        []
unfolding parse_json_object parse_json_string parse_json_value_as_string parse_json_value_on
    parse_json_number_as_string codes insert text_eq text_lt
parse_mixed = refl

parse_errors :
    (parse_json_object (codes "{\"a\":1") ≡ err (codes "unterminated object"))
    × (parse_json_object (codes "{\"a\":[1,2}") ≡ err (codes "expected comma in array"))
    × (parse_json_object (codes "{\"a\":1} x") ≡ err (codes "unexpected content after object"))
    × (parse_json_object (codes "{\"a\":tru}") ≡ err (codes "invalid json literal"))
    × (parse_json_object (codes "[]") ≡ err (codes "expected object"))
unfolding parse_json_object parse_json_string parse_json_value_as_string parse_json_value_on
    parse_json_number_as_string codes insert text_eq text_lt
parse_errors = (refl, refl, refl, refl, refl)

serialize_escapes :
    serialize_json_object ((codes "k", codes "a\"b\\\n") ∷ []) ≡ codes "{\"k\":\"a\\\"b\\\\\\n\"}"
unfolding serialize_json_object codes
serialize_escapes = refl

abbrev greeting : JsonObject
greeting = (codes "message", codes "hi\n") ∷ (codes "type", codes "private") ∷ []

greeting-IsSorted : IsSorted greeting
unfolding codes text_lt
greeting-IsSorted = ((refl, tt), (tt, tt))

-- A list three levels deep, with a character behind it.
abbrev nested_list : Text
nested_list = codes "[[[1]]],"

few_levels :
    (parse_json_value_on 2 nested_list ≡ out_of_fuel)
    × (parse_json_value_on 3 nested_list ≡ ok (codes "[[[1]]]") (codes ","))
unfolding parse_json_string parse_json_value_on parse_json_number_as_string codes
few_levels = (refl, refl)

-- An object as a value and as a request.
abbrev nested_object : Text
nested_object = codes "{\"a\":[[[1]]]}"

nested_object_read :
    (parse_json_value_on 13 nested_object ≡ ok nested_object [])
    × (parse_json_object nested_object ≡ ok ((codes "a", codes "[[[1]]]") ∷ []) [])
unfolding parse_json_object parse_json_string parse_json_value_as_string parse_json_value_on
    parse_json_number_as_string codes insert text_eq text_lt
nested_object_read = (refl, refl)

parse_json_value_on-levels_example :
    (parse_json_value_on 13 nested_object ≢ out_of_fuel)
    × (parse_json_value_on 13 nested_object ≡ parse_json_value_as_string nested_object)
    × (parse_json_object nested_object ≢ out_of_fuel)
unfolding codes
parse_json_value_on-levels_example = parse_json_value_on-levels 13 nested_object (omega arith)

parse_json_value_on-brackets_example :
    (parse_json_value_on 2 (brackets 3 (codes "1]]]")) ≡ out_of_fuel)
    × (parse_json_value_as_string (brackets 3 (codes "1]]]")) ≢ out_of_fuel)
parse_json_value_on-brackets_example = parse_json_value_on-brackets 2 (codes "1]]]")

parse-serialize_example : parse_json_object (serialize_json_object greeting) ≡ ok greeting []
parse-serialize_example = parse-serialize greeting greeting-IsSorted

parse_json_string-quoted_example :
    parse_json_string (quoted (codes "a\"b\n") ++ codes ",1") ≡ ok (codes "a\"b\n") (codes ",1")
parse_json_string-quoted_example = parse_json_string-quoted (codes "a\"b\n") (codes ",1")

-- A text with a list for a value.
parsed_list :
    parse_json_object (codes "{ \"a\" : [1, 2] } ") ≡ ok ((codes "a", codes "[1, 2]") ∷ []) []
unfolding parse_json_object parse_json_string parse_json_value_as_string parse_json_value_on
    parse_json_number_as_string codes insert text_eq text_lt
parsed_list = refl

serialize-HasNoControl_example : HasNoControl (serialize_json_object greeting)
serialize-HasNoControl_example = serialize-HasNoControl greeting
