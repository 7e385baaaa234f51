-- ===== src/Json/Mixed.antt =====
-- Objects of which some values are written without quotes: what the reader of common/Json.cc makes of
-- what the server writes for stored messages.
use mathlib.Core.List.{append_assoc}
use chat_service.Base.{
  ℕ, zero, suc, ◌<◌, ◌≤◌, Text, List, [], ◌∷◌, ◌++◌, length, length-append, codes, insert, Every,
  ◌≡◌, refl, sym, ap, ◌∙◌, arith,
}
use chat_service.Json.Parsed.{ok, ◌>>=◌}
use chat_service.Json.Lexical.{skip_whitespace}
use chat_service.Json.Values.{another, separator_at, colon, parse_json_value_as_string}
use chat_service.Json.Objects.{JsonObject, member, members_loop, object_body, parse_json_object}
use chat_service.Json.Printer.{escape_json_string, quoted}
use chat_service.Json.RoundTrip.{
  parse_json_string-quoted, members_loop-closed, members_loop-another, separator-brace, finish-nil,
}

-- A member with its value as it is shown, and as it is read.
pub record Entry : Type 0 where
  pub key : Text
  pub shown : Text
  pub value : Text

pub record IsReadable (e : Entry) : Type 0 where
  pub starts : (rest : Text) → skip_whitespace (e.shown ++ rest) ≡ e.shown ++ rest
  pub behind_comma :
      (rest : Text) → parse_json_value_as_string (e.shown ++ b',' ∷ rest) ≡ ok e.value (b',' ∷ rest)
  pub behind_brace :
      (rest : Text) → parse_json_value_as_string (e.shown ++ b'}' ∷ rest) ≡ ok e.value (b'}' ∷ rest)

unfoldable pub entry : Entry → Text
entry e = quoted e.key ++ b':' ∷ e.shown

unfoldable pub more_entries : List Entry → Text
unfolding entry
more_entries [] = []
more_entries (e ∷ es) = b',' ∷ (entry e ++ more_entries es)

unfoldable pub mixed : Entry → List Entry → Text
unfolding entry more_entries
mixed e es = b'{' ∷ (entry e ++ (more_entries es ++ b'}' ∷ []))

unfoldable pub insert_each : List Entry → JsonObject → JsonObject
insert_each [] object = object
insert_each (e ∷ es) object = insert_each es (insert e.key e.value object)

-- What stands behind the first quote.
unfoldable entry_tail : Entry → Text
entry_tail e = (escape_json_string e.key ++ 0x22 ∷ []) ++ b':' ∷ e.shown

entry-cons : (e : Entry) (rest : Text) → entry e ++ rest ≡ 0x22 ∷ (entry_tail e ++ rest)
unfolding entry entry_tail quoted
entry-cons e rest = refl

skip-entry : (e : Entry) (rest : Text) → skip_whitespace (entry e ++ rest) ≡ entry e ++ rest
unfolding skip_whitespace entry quoted
skip-entry e rest = refl

member-entry :
    (e : Entry) (rest end : Text) (object : JsonObject)
    → skip_whitespace (e.shown ++ rest) ≡ e.shown ++ rest
    → parse_json_value_as_string (e.shown ++ rest) ≡ ok e.value end
    → member (entry e ++ rest) object ≡ ok (insert e.key e.value object) end
unfolding member entry colon
member-entry e rest end object starts reads =
    rw
      (
        append_assoc (quoted e.key) (b':' ∷ e.shown) rest,
        parse_json_string-quoted e.key (b':' ∷ (e.shown ++ rest)),
      )
      (ap (λ t. parse_json_value_as_string t >>= λ value end. ok (insert e.key value object) end)
          starts
        ∙ ap (λ r. r >>= λ value end. ok (insert e.key value object) end) reads)

separator-entry :
    (x y : Text) (e : Entry) (rest : Text)
    → separator_at b'}' x y (skip_whitespace (b',' ∷ (entry e ++ rest))) ≡ another (entry e ++ rest)
unfolding separator_at entry quoted
separator-entry x y e rest = refl

entry-closed :
    (fuel : ℕ) (e : Entry) (object : JsonObject)
    → IsReadable e
    → members_loop (suc fuel) (entry e ++ b'}' ∷ []) object ≡ ok (insert e.key e.value object) []
entry-closed fuel e object v =
    let rest = b'}' ∷ [] in
    ap (λ t. members_loop (suc fuel) t object) (entry-cons e rest)
    ∙ members_loop-closed fuel 0x22 (entry_tail e ++ rest) rest [] object
        (insert e.key e.value object)
        (ap (λ t. member t object) (sym (entry-cons e rest))
          ∙ member-entry e rest rest object (v.starts rest) (v.behind_brace []))
        (separator-brace (codes "unterminated object") (codes "expected comma"))
    ∙ finish-nil (insert e.key e.value object)

entry-another :
    (fuel : ℕ) (e f : Entry) (more : Text) (object : JsonObject)
    → IsReadable e
    → members_loop (suc fuel) (entry e ++ b',' ∷ (entry f ++ more)) object
      ≡ members_loop fuel (entry f ++ more) (insert e.key e.value object)
entry-another fuel e f more object v =
    let rest = b',' ∷ (entry f ++ more) in
    ap (λ t. members_loop (suc fuel) t object) (entry-cons e rest)
    ∙ members_loop-another fuel 0x22 (entry_tail e ++ rest) rest (entry f ++ more) object
        (insert e.key e.value object)
        (ap (λ t. member t object) (sym (entry-cons e rest))
          ∙ member-entry e rest rest object (v.starts rest) (v.behind_comma (entry f ++ more)))
        (separator-entry (codes "unterminated object") (codes "expected comma") f more)

more_entries-cons :
    (e : Entry) (es : List Entry) (rest : Text)
    → more_entries (e ∷ es) ++ rest ≡ b',' ∷ (entry e ++ (more_entries es ++ rest))
unfolding more_entries
more_entries-cons e es rest = ap (λ t. b',' ∷ t) (append_assoc (entry e) (more_entries es) rest)

members_loop-entries :
    (es : List Entry) (e : Entry) (object : JsonObject) (fuel : ℕ)
    → length es < fuel
    → Every IsReadable (e ∷ es)
    → members_loop fuel (entry e ++ (more_entries es ++ b'}' ∷ [])) object
      ≡ ok (insert_each (e ∷ es) object) []
unfolding insert_each
members_loop-entries es e object zero h v = absurd (omega arith)
members_loop-entries [] e object (suc fuel) h v =
    unfold more_entries in entry-closed fuel e object v.0
members_loop-entries (f ∷ es) e object (suc fuel) h v =
    ap (λ t. members_loop (suc fuel) (entry e ++ t) object) (more_entries-cons f es (b'}' ∷ []))
    ∙ entry-another fuel e f (more_entries es ++ b'}' ∷ []) object v.0
    ∙ members_loop-entries es f (insert e.key e.value object) fuel (omega arith) v.1

length-more_entries : (es : List Entry) → length es ≤ length (more_entries es)
unfolding more_entries
length-more_entries [] = omega arith
length-more_entries (e ∷ es) =
    omega (arith, length-append (entry e) (more_entries es), length-more_entries es)

-- From behind the opening brace.
body-entries :
    (e : Entry) (es : List Entry)
    → Every IsReadable (e ∷ es)
    → object_body (entry e ++ (more_entries es ++ b'}' ∷ [])) ≡ ok (insert_each (e ∷ es) []) []
unfolding object_body
body-entries e es v =
    let rest = more_entries es ++ b'}' ∷ [] in
    ap object_body (entry-cons e rest)
    ∙ ap (λ t. members_loop (suc (length t)) t []) (sym (entry-cons e rest))
    ∙ members_loop-entries es e [] (suc (length (entry e ++ rest)))
        (omega (
          arith,
          length-append (entry e) rest,
          length-append (more_entries es) (b'}' ∷ []),
          length-more_entries es,
        ))
        v

-- Members that are readable one by one are read together, in their order.
pub parse-mixed :
    (e : Entry) (es : List Entry)
    → Every IsReadable (e ∷ es)
    → parse_json_object (mixed e es) ≡ ok (insert_each (e ∷ es) []) []
unfolding parse_json_object mixed
parse-mixed e es v =
    ap object_body (skip-entry e (more_entries es ++ b'}' ∷ [])) ∙ body-entries e es v
