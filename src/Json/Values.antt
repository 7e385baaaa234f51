-- ===== src/Json/Values.antt =====
-- The values that are skipped over whole, common/Json.cc. The three functions call one another on ever
-- later positions; here on fuel, with Json/Totality.antt showing that the fuel of `enough` does not run
-- out. Each list or object inside another takes a level of the stack of the thread, and the code does
-- not count them: `levels` is how many the stack holds, and `out_of_fuel` stands for the crash of the
-- process when it does not hold one more.
use chat_service.Base.{
  ℕ, zero, suc, ◌+◌, ◌*◌, Text, Bool, false, ◌||◌, Option, none, some, [], ◌∷◌, ◌==◌, length, codes,
  if◌then◌else◌,
}
use chat_service.Json.Parsed.{Parsed, ok, err, out_of_fuel, ◌>>=◌}
use chat_service.Json.Lexical.{
  skip_whitespace, parse_json_string, parse_json_number_as_string, between,
}

-- What is left behind the literal, if the text begins with it.
unfoldable pub strip_prefix : Text → Text → Option Text
strip_prefix [] text = some text
strip_prefix (c ∷ literal) [] = none
strip_prefix (c ∷ literal) (d ∷ text) = if c == d then strip_prefix literal text else none

unfoldable pub consume_json_literal : Text → Text → Parsed (Unit {0})
unfolding strip_prefix
consume_json_literal literal text = elim (strip_prefix literal text) [
  | none ↦ err (codes "invalid json literal")
  | some rest ↦ ok tt rest
]

-- What stands behind an item of an array or a member of an object: the end of the whole, or a comma
-- and white space before the next.
pub data Separator : Type 0 where
  closed : Text → Separator
  another : Text → Separator
  wrong : Text → Separator

unfoldable pub separator_at : ℕ → Text → Text → Text → Separator
unfolding skip_whitespace
separator_at close unterminated no_comma [] = wrong unterminated
separator_at close unterminated no_comma (c ∷ rest) =
    if c == close
    then closed rest
    else if c == b','
    then another (skip_whitespace rest)
    else wrong no_comma

abbrev pub array_separator : Text → Separator
array_separator text =
    separator_at b']' (codes "unterminated array") (codes "expected comma in array")
      (skip_whitespace text)

abbrev pub object_separator : Text → Separator
object_separator text =
    separator_at b'}' (codes "unterminated object") (codes "expected comma in object")
      (skip_whitespace text)

-- A colon, with the white space round it.
unfoldable pub colon : Text → Text → Parsed (Unit {0})
unfolding skip_whitespace
colon e [] = err e
colon e (c ∷ rest) = if c == b':' then ok tt (skip_whitespace rest) else err e

-- The key of a member and its colon.
unfoldable pub consume_key : Text → Parsed (Unit {0})
unfolding colon
consume_key text = parse_json_string text >>= λ _ rest.
    colon (codes "expected colon in object") (skip_whitespace rest)

-- The value that a function read is ignored.
abbrev pub ignore : Parsed Text → Parsed (Unit {0})
ignore r = r >>= λ _ rest. ok tt rest

abbrev pub begins_with : ℕ → Text → Bool
begins_with c [] = false
begins_with c (d ∷ text) = d == c

abbrev pub tail : Text → Text
tail [] = []
tail (c ∷ text) = text

-- The choice by the first character, given what the two nested readers make of what is behind it.
unfoldable pub value_by : Parsed (Unit {0}) → Parsed (Unit {0}) → Text → Parsed (Unit {0})
unfolding consume_json_literal
value_by object array [] = err (codes "expected json value")
value_by object array (c ∷ rest) =
    if c == 0x22
    then ignore (parse_json_string (c ∷ rest))
    else if c == b'{'
    then object
    else if c == b'['
    then array
    else if c == b't'
    then consume_json_literal (codes "true") (c ∷ rest)
    else if c == b'f'
    then consume_json_literal (codes "false") (c ∷ rest)
    else if c == b'n'
    then consume_json_literal (codes "null") (c ∷ rest)
    else ignore (parse_json_number_as_string (c ∷ rest))

unfoldable mutual
  unfolding value_by separator_at consume_key skip_whitespace

  -- The fuel, the levels, and the text.
  pub consume_json_value : ℕ → ℕ → Text → Parsed (Unit {0})
  consume_json_value zero levels text = out_of_fuel
  consume_json_value (suc fuel) zero text = value_by out_of_fuel out_of_fuel (skip_whitespace text)
  consume_json_value (suc fuel) (suc levels) text =
      value_by (consume_json_object fuel levels (skip_whitespace (tail (skip_whitespace text))))
        (consume_json_array fuel levels (skip_whitespace (tail (skip_whitespace text))))
        (skip_whitespace text)

  -- Behind the bracket and its white space.
  pub consume_json_array : ℕ → ℕ → Text → Parsed (Unit {0})
  consume_json_array zero levels text = out_of_fuel
  consume_json_array (suc fuel) levels text =
      let items = consume_items fuel levels text in
      if begins_with b']' text then ok tt (tail text) else items

  -- The loop of `consumeJsonArray`.
  pub consume_items : ℕ → ℕ → Text → Parsed (Unit {0})
  consume_items zero levels text = out_of_fuel
  consume_items (suc fuel) levels [] = err (codes "unterminated array")
  consume_items (suc fuel) levels (c ∷ text) = elim (consume_json_value fuel levels (c ∷ text)) [
    | err e ↦ err e
    | out_of_fuel ↦ out_of_fuel
    | ok _ rest ↦ elim (array_separator rest) [
      | closed end ↦ ok tt end
      | another next ↦ consume_items fuel levels next
      | wrong e ↦ err e
    ]
  ]

  pub consume_json_object : ℕ → ℕ → Text → Parsed (Unit {0})
  consume_json_object zero levels text = out_of_fuel
  consume_json_object (suc fuel) levels text =
      let members = consume_members fuel levels text in
      if begins_with b'}' text then ok tt (tail text) else members

  -- The loop of `consumeJsonObject`.
  pub consume_members : ℕ → ℕ → Text → Parsed (Unit {0})
  consume_members zero levels text = out_of_fuel
  consume_members (suc fuel) levels [] = err (codes "unterminated object")
  consume_members (suc fuel) levels (c ∷ text) = elim (consume_key (c ∷ text)) [
    | err e ↦ err e
    | out_of_fuel ↦ out_of_fuel
    | ok _ value ↦ elim (consume_json_value fuel levels value) [
      | err e ↦ err e
      | out_of_fuel ↦ out_of_fuel
      | ok _ rest ↦ elim (object_separator rest) [
        | closed end ↦ ok tt end
        | another next ↦ consume_members fuel levels next
        | wrong e ↦ err e
      ]
    ]
  ]

abbrev pub enough : Text → ℕ
enough text = 3 * length text + 3

-- The first characters of the values whose text is kept as it stands.
abbrev pub is_raw : ℕ → Bool
is_raw c = c == b'{' || c == b'[' || c == b't' || c == b'f' || c == b'n'

-- On a stack of so many levels.
unfoldable pub parse_json_value_on : ℕ → Text → Parsed Text
unfolding consume_json_value
parse_json_value_on levels [] = parse_json_number_as_string []
parse_json_value_on levels (c ∷ text) =
    if c == 0x22
    then parse_json_string (c ∷ text)
    else if is_raw c
    then (consume_json_value (enough (c ∷ text)) levels (c ∷ text) >>= λ _ rest.
        ok (between (c ∷ text) rest) rest)
    else parse_json_number_as_string (c ∷ text)

-- On a stack that holds a level for each character, which is as good as one without end: see
-- Json/Stack.antt.
unfoldable pub parse_json_value_as_string : Text → Parsed Text
unfolding parse_json_value_on
parse_json_value_as_string text = parse_json_value_on (length text) text
