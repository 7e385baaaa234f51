-- ===== src/Json/Framing.antt =====
-- A line that common/Json.cc makes is one line: its only line break is its last byte.
use chat_service.Base.{ℕ, ◌≤◌, Text, [], ◌∷◌, ◌++◌, arith}
use chat_service.Json.Objects.{JsonObject}
use chat_service.Json.Printer.{
  escape_char, escape_json_string, quoted, field, more_fields, all_fields, serialize_json_object,
}

-- No byte is a control character.
abbrev pub HasNoControl : Text → Type 0
HasNoControl [] = Unit {0}
HasNoControl (c ∷ s) = (32 ≤ c) × HasNoControl s

pub HasNoControl-append : (s t : Text) → HasNoControl s → HasNoControl t → HasNoControl (s ++ t)
HasNoControl-append [] t h k = k
HasNoControl-append (c ∷ s) t h k = (h.0, HasNoControl-append s t h.1 k)

escape_char-HasNoControl : (c : ℕ) → HasNoControl (escape_char c)
unfolding escape_char
escape_char-HasNoControl c = ground arith

pub escape-HasNoControl : (s : Text) → HasNoControl (escape_json_string s)
unfolding escape_json_string
escape-HasNoControl [] = tt
escape-HasNoControl (c ∷ s) =
    HasNoControl-append (escape_char c) (escape_json_string s) (escape_char-HasNoControl c)
      (escape-HasNoControl s)

pub quoted-HasNoControl : (s : Text) → HasNoControl (quoted s)
unfolding quoted
quoted-HasNoControl s = (
  omega arith,
  HasNoControl-append (escape_json_string s) (0x22 ∷ []) (escape-HasNoControl s) (omega arith),
)

field-HasNoControl : (k v : Text) → HasNoControl (field k v)
unfolding field
field-HasNoControl k v =
    HasNoControl-append (quoted k) (b':' ∷ quoted v) (quoted-HasNoControl k)
      (omega arith, quoted-HasNoControl v)

more_fields-HasNoControl : (m : JsonObject) → HasNoControl (more_fields m)
unfolding more_fields
more_fields-HasNoControl [] = tt
more_fields-HasNoControl ((k, v) ∷ m) = (
  omega arith,
  HasNoControl-append (field k v) (more_fields m) (field-HasNoControl k v)
      (more_fields-HasNoControl m),
)

all_fields-HasNoControl : (m : JsonObject) → HasNoControl (all_fields m)
unfolding all_fields
all_fields-HasNoControl [] = tt
all_fields-HasNoControl ((k, v) ∷ m) =
    HasNoControl-append (field k v) (more_fields m) (field-HasNoControl k v)
      (more_fields-HasNoControl m)

-- Whatever bytes an object's keys and values hold, its serialized text has no control character.
pub serialize-HasNoControl : (m : JsonObject) → HasNoControl (serialize_json_object m)
unfolding serialize_json_object
serialize-HasNoControl m = (
  omega arith,
  HasNoControl-append (all_fields m) (b'}' ∷ []) (all_fields-HasNoControl m) (omega arith),
)
