-- ===== src/Json/RoundTrip.antt =====
-- common/Json.cc reads back what it writes.
use mathlib.Core.List.{append_assoc, append-nil}
use chat_service.Base.{
  ℕ, zero, suc, ◌/◌, ◌%◌, ◌≤◌, ◌<◌, Text, some, [], ◌∷◌, ◌++◌, length, length-append, codes, insert,
  insert_all, IsSorted, insert_all-nil, ◌≡◌, refl, sym, ap, ◌∙◌, arith,
}
use chat_service.Json.Parsed.{ok, ◌>>=◌}
use chat_service.Json.Lexical.{
  skip_whitespace, hex_value, string_step, continued, string_loop, parse_json_string,
}
use chat_service.Json.Values.{
  closed, another, separator_at, colon, parse_json_value_as_string, parse_json_value_on,
}
use chat_service.Json.Objects.{
  JsonObject, finish, member, members_loop, object_body, parse_json_object,
}
use chat_service.Json.Printer.{
  hex_digit, escape_char, escape_json_string, quoted, field, more_fields, serialize_json_object,
}

hex_value-hex_digit : (n : ℕ) → n < 16 → hex_value (hex_digit n) ≡ some n
unfolding hex_value
hex_value-hex_digit n h = ground arith

-- One round of the string loop reads one escaped character.
string_step-escape_char :
    (c : ℕ) (rest output : Text)
    → string_step (escape_char c ++ rest) output ≡ continued (output ++ c ∷ []) rest
unfolding string_step escape_char
string_step-escape_char c rest output =
    ground (arith, hex_value-hex_digit (c / 16), hex_value-hex_digit (c % 16))

string_loop-continued :
    (fuel : ℕ) (text output output' rest : Text)
    → string_step text output ≡ continued output' rest
    → string_loop (suc fuel) text output ≡ string_loop fuel rest output'
unfolding string_loop
string_loop-continued fuel text output output' rest h = rw (h, string_loop)

escape-cons :
    (c : ℕ) (s rest : Text)
    → escape_json_string (c ∷ s) ++ rest ≡ escape_char c ++ (escape_json_string s ++ rest)
unfolding escape_json_string
escape-cons c s rest = append_assoc (escape_char c) (escape_json_string s) rest

string_loop-escape :
    (s rest output : Text) (fuel : ℕ)
    → length s < fuel
    → string_loop fuel (escape_json_string s ++ 0x22 ∷ rest) output ≡ ok (output ++ s) rest
string_loop-escape s rest output zero h = absurd (omega arith)
string_loop-escape [] rest output (suc fuel) h =
    rw append-nil (unfold string_loop escape_json_string in refl)
string_loop-escape (c ∷ s) rest output (suc fuel) h = rw (escape-cons c s (0x22 ∷ rest)) (
    string_loop-continued fuel _ _ _ _
      (string_step-escape_char c (escape_json_string s ++ 0x22 ∷ rest) output)
    ∙ string_loop-escape s rest (output ++ c ∷ []) fuel (omega arith)
    ∙ ap (λ t. ok t rest) (append_assoc output (c ∷ []) s))

length-escape_char : (c : ℕ) → 0 < length (escape_char c)
unfolding escape_char
length-escape_char c = ground arith

length-escape : (s : Text) → length s ≤ length (escape_json_string s)
unfolding escape_json_string
length-escape [] = omega arith
length-escape (c ∷ s) = omega (
  arith,
  length-append (escape_char c) (escape_json_string s),
  length-escape_char c,
  length-escape s,
)

-- Every text, whatever bytes it holds, is read back from its quoted form.
pub parse_json_string-quoted : (s rest : Text) → parse_json_string (quoted s ++ rest) ≡ ok s rest
unfolding parse_json_string quoted
parse_json_string-quoted s rest = rw (append_assoc (escape_json_string s) (0x22 ∷ []) rest) (
    string_loop-escape s rest [] (suc (length (escape_json_string s ++ 0x22 ∷ rest)))
      (omega (arith, length-escape s, length-append (escape_json_string s) (0x22 ∷ rest))))

pub value-quoted : (s rest : Text) → parse_json_value_as_string (quoted s ++ rest) ≡ ok s rest
unfolding parse_json_value_as_string parse_json_value_on quoted
value-quoted s rest = parse_json_string-quoted s rest

pub skip_whitespace-quoted : (s rest : Text) → skip_whitespace (quoted s ++ rest) ≡ quoted s ++ rest
unfolding skip_whitespace quoted
skip_whitespace-quoted s rest = refl

colon-quoted :
    (e s rest : Text)
    → colon e (skip_whitespace (b':' ∷ (quoted s ++ rest))) ≡ ok tt (quoted s ++ rest)
unfolding colon
colon-quoted e s rest = ap (ok tt) (skip_whitespace-quoted s rest)

member-field :
    (k v rest : Text) (object : JsonObject)
    → member (field k v ++ rest) object ≡ ok (insert k v object) rest
unfolding member field
member-field k v rest object =
    rw
      (
        append_assoc (quoted k) (b':' ∷ quoted v) rest,
        parse_json_string-quoted k (b':' ∷ (quoted v ++ rest)),
      )
      (ap (λ r. r >>= λ value end. ok (insert k value object) end) (value-quoted v rest))

-- A closing brace, or a comma and the next field.
pub separator-brace : (e f : Text) → separator_at b'}' e f (skip_whitespace (b'}' ∷ [])) ≡ closed []
unfolding separator_at
separator-brace e f = refl

separator-comma :
    (e f k v rest : Text)
    → separator_at b'}' e f (skip_whitespace (b',' ∷ (field k v ++ rest)))
      ≡ another (field k v ++ rest)
unfolding separator_at field quoted
separator-comma e f k v rest = refl

pub members_loop-closed :
    (fuel c : ℕ) (text rest end : Text) (object object' : JsonObject)
    → member (c ∷ text) object ≡ ok object' rest
    → separator_at b'}'
        (codes "unterminated object")
        (codes "expected comma")
        (skip_whitespace rest)
      ≡ closed end
    → members_loop (suc fuel) (c ∷ text) object ≡ finish object' end
unfolding members_loop
members_loop-closed fuel c text rest end object object' h k = rw (h, members_loop) (rw k)

pub members_loop-another :
    (fuel c : ℕ) (text rest more : Text) (object object' : JsonObject)
    → member (c ∷ text) object ≡ ok object' rest
    → separator_at b'}'
        (codes "unterminated object")
        (codes "expected comma")
        (skip_whitespace rest)
      ≡ another more
    → members_loop (suc fuel) (c ∷ text) object ≡ members_loop fuel more object'
unfolding members_loop
members_loop-another fuel c text rest more object object' h k = rw (h, members_loop) (rw k)

pub finish-nil : (object : JsonObject) → finish object [] ≡ ok object []
unfolding finish
finish-nil object = refl

-- What stands behind the first quote of a field.
unfoldable field_tail : Text → Text → Text
unfolding quoted
field_tail k v = (escape_json_string k ++ 0x22 ∷ []) ++ b':' ∷ quoted v

field-cons : (k v rest : Text) → field k v ++ rest ≡ 0x22 ∷ (field_tail k v ++ rest)
unfolding field field_tail
field-cons k v rest = refl

field-closed :
    (fuel : ℕ) (k v : Text) (object : JsonObject)
    → members_loop (suc fuel) (field k v ++ b'}' ∷ []) object ≡ ok (insert k v object) []
field-closed fuel k v object =
    let rest = b'}' ∷ [] in
    ap (λ t. members_loop (suc fuel) t object) (field-cons k v rest)
    ∙ members_loop-closed fuel 0x22 (field_tail k v ++ rest) rest [] object (insert k v object)
        (ap (λ t. member t object) (sym (field-cons k v rest)) ∙ member-field k v rest object)
        (separator-brace (codes "unterminated object") (codes "expected comma"))
    ∙ finish-nil (insert k v object)

field-another :
    (fuel : ℕ) (k v k' v' more : Text) (object : JsonObject)
    → members_loop (suc fuel) (field k v ++ b',' ∷ (field k' v' ++ more)) object
      ≡ members_loop fuel (field k' v' ++ more) (insert k v object)
field-another fuel k v k' v' more object =
    let rest = b',' ∷ (field k' v' ++ more) in
    ap (λ t. members_loop (suc fuel) t object) (field-cons k v rest)
    ∙ members_loop-another fuel 0x22 (field_tail k v ++ rest) rest (field k' v' ++ more) object
        (insert k v object)
        (ap (λ t. member t object) (sym (field-cons k v rest)) ∙ member-field k v rest object)
        (separator-comma (codes "unterminated object") (codes "expected comma") k' v' more)

more_fields-cons :
    (k v : Text) (m : JsonObject) (rest : Text)
    → more_fields ((k, v) ∷ m) ++ rest ≡ b',' ∷ (field k v ++ (more_fields m ++ rest))
unfolding more_fields
more_fields-cons k v m rest = ap (λ t. b',' ∷ t) (append_assoc (field k v) (more_fields m) rest)

members_loop-fields :
    (m : JsonObject) (k v : Text) (object : JsonObject) (fuel : ℕ)
    → length m < fuel
    → members_loop fuel (field k v ++ (more_fields m ++ b'}' ∷ [])) object
      ≡ ok (insert_all m (insert k v object)) []
unfolding insert_all
members_loop-fields m k v object zero h = absurd (omega arith)
members_loop-fields [] k v object (suc fuel) h = unfold more_fields in field-closed fuel k v object
members_loop-fields ((k', v') ∷ m) k v object (suc fuel) h =
    ap (λ t. members_loop (suc fuel) (field k v ++ t) object) (more_fields-cons k' v' m (b'}' ∷ []))
    ∙ field-another fuel k v k' v' (more_fields m ++ b'}' ∷ []) object
    ∙ members_loop-fields m k' v' (insert k v object) fuel (omega arith)

length-more_fields : (m : JsonObject) → length m ≤ length (more_fields m)
unfolding more_fields
length-more_fields [] = omega arith
length-more_fields ((k, v) ∷ m) =
    omega (arith, length-append (field k v) (more_fields m), length-more_fields m)

-- From behind the opening brace.
body-fields :
    (k v : Text) (m : JsonObject)
    → object_body (field k v ++ (more_fields m ++ b'}' ∷ [])) ≡ ok (insert_all m (insert k v [])) []
unfolding object_body
body-fields k v m =
    let rest = more_fields m ++ b'}' ∷ [] in
    ap object_body (field-cons k v rest)
    ∙ ap (λ t. members_loop (suc (length t)) t []) (sym (field-cons k v rest))
    ∙ members_loop-fields m k v [] (suc (length (field k v ++ rest))) (
        omega (
          arith,
          length-append (field k v) rest,
          length-append (more_fields m) (b'}' ∷ []),
          length-more_fields m,
        ))

skip_whitespace-field : (k v rest : Text) → skip_whitespace (field k v ++ rest) ≡ field k v ++ rest
unfolding skip_whitespace field quoted
skip_whitespace-field k v rest = refl

-- The entries that are read are those that were written, in their order.
pub parse-serialize_entries :
    (m : JsonObject) → parse_json_object (serialize_json_object m) ≡ ok (insert_all m []) []
unfolding parse_json_object serialize_json_object insert insert_all
parse-serialize_entries [] = refl
parse-serialize_entries ((k, v) ∷ m) =
    ap (λ t. object_body (skip_whitespace t)) (append_assoc (field k v) (more_fields m) (b'}' ∷ []))
    ∙ ap object_body (skip_whitespace-field k v (more_fields m ++ b'}' ∷ []))
    ∙ body-fields k v m

-- An object whose keys are in the order of the map, whatever bytes its keys and values hold, is read
-- back from its serialized text, and the whole text is consumed.
pub parse-serialize :
    (m : JsonObject) → IsSorted m → parse_json_object (serialize_json_object m) ≡ ok m []
parse-serialize m s = parse-serialize_entries m ∙ ap (λ t. ok t []) (insert_all-nil m s)
