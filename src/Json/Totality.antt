-- ===== src/Json/Totality.antt =====
-- `parseJsonObject` of common/Json.cc ends on every text: the model's fuel is never used up, and a
-- level of stack for each character is enough.
use chat_service.Base.{
  ℕ, zero, suc, ◌<◌, Text, [], ◌∷◌, ◌==◌, length, codes, insert, ◌≢◌, inl, inr, arith, Bool-cases,
}
use chat_service.Json.Parsed.{Parsed, ok, err, out_of_fuel, ◌>>=◌}
use chat_service.Json.Lexical.{skip_whitespace, parse_json_string, between}
use chat_service.Json.Values.{
  Separator, closed, another, wrong, separator_at, colon, consume_json_value, enough, is_raw,
  parse_json_value_as_string, parse_json_value_on,
}
use chat_service.Json.Objects.{
  JsonObject, finish, member, members_loop, object_body, object_start, parse_json_object,
}
use chat_service.Json.Progress.{
  Leaves, Leaves-bind, Leaves-mono, length-skip_whitespace, parse_json_string-Leaves,
  parse_json_number_as_string-Leaves,
}
use chat_service.Json.Consuming.{SeparatorLeaves, separator-Leaves, colon-Leaves, value-Leaves}

pub parse_json_value_as_string-Leaves :
    (text : Text) → Leaves (length text) (parse_json_value_as_string text)
unfolding parse_json_value_as_string parse_json_value_on
parse_json_value_as_string-Leaves [] = parse_json_number_as_string-Leaves []
parse_json_value_as_string-Leaves (c ∷ text) = elim (Bool-cases (c == 0x22)) [
  | inl h ↦ rw h (parse_json_string-Leaves (c ∷ text))
  | inr h ↦ rw h (elim (Bool-cases (is_raw c)) [
    | inl k ↦ rw k (
        Leaves-bind (suc (length text)) (suc (length text))
          (consume_json_value (enough (c ∷ text)) (suc (length text)) (c ∷ text))
          (λ _ rest. ok (between (c ∷ text) rest) rest)
          (value-Leaves (enough (c ∷ text)) (suc (length text)) (c ∷ text) (omega arith)
            (omega arith))
          (λ _ rest l. l))
    | inr k ↦ rw k (parse_json_number_as_string-Leaves (c ∷ text))
  ])
]

member-Leaves : (text : Text) (object : JsonObject) → Leaves (length text) (member text object)
unfolding member
member-Leaves text object =
    let n = length text in
    Leaves-bind n n (parse_json_string text)
      (λ key rest. colon (codes "expected colon") (skip_whitespace rest) >>= λ _ start.
        parse_json_value_as_string start >>= λ value end. ok (insert key value object) end)
      (parse_json_string-Leaves text)
      λ key rest l.
        Leaves-bind n n (colon (codes "expected colon") (skip_whitespace rest))
          (λ _ start.
            parse_json_value_as_string start >>= λ value end. ok (insert key value object) end)
          (Leaves-mono (length (skip_whitespace rest)) n _
            (omega (arith, length-skip_whitespace rest))
            (colon-Leaves (codes "expected colon") (skip_whitespace rest)))
          λ _ start m.
            Leaves-bind n n (parse_json_value_as_string start)
              (λ value end. ok (insert key value object) end)
              (Leaves-mono (length start) n _ (omega arith)
                (parse_json_value_as_string-Leaves start))
              (λ value end k. k)

finish-ne : (object : JsonObject) (text : Text) → finish object text ≢ out_of_fuel
unfolding finish
finish-ne object text h = ground arith

-- A round of the loop, from the result of its member.
round-ne :
    (n : ℕ) (e f : Text) (r : Parsed JsonObject) (next : Text → JsonObject → Parsed JsonObject)
    → Leaves n r
    → ((rest : Text) (object : JsonObject) → length rest < n → next rest object ≢ out_of_fuel)
    → (elim r [
      | err e' ↦ err e'
      | out_of_fuel ↦ out_of_fuel
      | ok object rest ↦ elim (separator_at b'}' e f (skip_whitespace rest)) [
        | closed end ↦ finish object end
        | another more ↦ next more object
        | wrong e' ↦ err e'
      ]
    ])
      ≢ out_of_fuel
round-ne n e f (err e') next l k = λ h. cc
round-ne n e f out_of_fuel next l k = absurd l
round-ne n e f (ok object rest) next l k =
    separated (separator_at b'}' e f (skip_whitespace rest)) (separator-Leaves b'}' e f rest)
  where
    separated :
        (s : Separator)
        → SeparatorLeaves (suc (length rest)) s
        → (elim s [
          | closed end ↦ finish object end
          | another more ↦ next more object
          | wrong e' ↦ err e'
        ])
          ≢ out_of_fuel
    separated (closed end) m = finish-ne object end
    separated (another more) m = k more object (omega arith)
    separated (wrong e') m = λ h. cc

members_loop-ne :
    (fuel : ℕ) (text : Text) (object : JsonObject)
    → length text < fuel
    → members_loop fuel text object ≢ out_of_fuel
unfolding members_loop
members_loop-ne zero text object h = absurd (omega arith)
members_loop-ne (suc fuel) [] object h = λ q. cc
members_loop-ne (suc fuel) (c ∷ text) object h =
    round-ne (suc (length text)) (codes "unterminated object") (codes "expected comma")
      (member (c ∷ text) object) (members_loop fuel) (member-Leaves (c ∷ text) object)
      (λ rest object' l. members_loop-ne fuel rest object' (omega arith))

object_body-ne : (text : Text) → object_body text ≢ out_of_fuel
unfolding object_body
object_body-ne [] = members_loop-ne 1 [] [] (omega arith)
object_body-ne (c ∷ text) = elim (Bool-cases (c == b'}')) [
  | inl h ↦ rw h (finish-ne [] text)
  | inr h ↦ rw h (members_loop-ne (suc (suc (length text))) (c ∷ text) [] (omega arith))
]

object_start-ne : (text : Text) → object_start text ≢ out_of_fuel
unfolding object_start
object_start-ne [] = λ h. cc
object_start-ne (c ∷ text) = elim (Bool-cases (c == b'{')) [
  | inl h ↦ rw h (object_body-ne (skip_whitespace text))
  | inr h ↦ rw h (λ q. cc)
]

-- On every text the parser, with a level of stack for each character, returns an object or an error:
-- its fuel, a number that grows with the length of the text, does not run out.
pub parse_json_object-ne-out_of_fuel : (text : Text) → parse_json_object text ≢ out_of_fuel
unfolding parse_json_object
parse_json_object-ne-out_of_fuel text = object_start-ne (skip_whitespace text)
