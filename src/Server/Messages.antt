-- ===== src/Server/Messages.antt =====
-- The stored messages in the answers to requests for a history: server/ChatServer.cc writes their
-- numbers without quotes.
use mathlib.Core.List.{append_assoc, append-nil}
use chat_service.Base.{ℕ, Text, List, [], ◌∷◌, ◌++◌, codes, insert, Every, ◌≡◌, refl, ap, ◌∙◌, sym}
use chat_service.Json.{JsonObject, escape_json_string, parse_json_object}
use chat_service.Json.Mixed.{
  Entry, IsReadable, entry, more_entries, mixed, insert_each, parse-mixed,
}
use chat_service.Json.Parsed.{ok}
use chat_service.Json.Printer.{quoted}
use chat_service.Server.Chat.{string_field, int_field, private_message_json, room_message_json}
use chat_service.Server.Numbers.{int64_to_string, read_digits}
use chat_service.Server.Numbers.Digits.{
  text_entry, number_entry, text_entry-IsReadable, number_entry-IsReadable,
  read_digits-int64_to_string,
}
use chat_service.Server.State.{Message}

pub string_field-entry : (key value : Text) → string_field key value ≡ entry (text_entry key value)
unfolding string_field entry quoted
string_field-entry key value =
    ap (λ t. 0x22 ∷ t)
      (sym (
        append_assoc (escape_json_string key) (0x22 ∷ [])
          (b':' ∷ 0x22 ∷ (escape_json_string value ++ 0x22 ∷ []))))

pub int_field-entry :
    (key : Text) (value : ℕ) → int_field key value ≡ entry (number_entry key value)
unfolding int_field entry quoted
int_field-entry key value =
    ap (λ t. 0x22 ∷ t)
      (sym (append_assoc (escape_json_string key) (0x22 ∷ []) (b':' ∷ int64_to_string value)))

-- The members of a message, the one that names its receiver or its room in the middle.
abbrev members_behind : Text → Text → Message → List Entry
members_behind key name m =
    text_entry (codes "sender") m.sender
    ∷ text_entry key name
    ∷ text_entry (codes "content") m.content
    ∷ number_entry (codes "created_at") m.created_at
    ∷ []

members-IsReadable :
    (key name : Text) (m : Message)
    → Every IsReadable (number_entry (codes "id") m.id ∷ members_behind key name m)
members-IsReadable key name m = (
  number_entry-IsReadable (codes "id") m.id,
  (
    text_entry-IsReadable (codes "sender") m.sender,
    (
      text_entry-IsReadable key name,
      (
        text_entry-IsReadable (codes "content") m.content,
        (number_entry-IsReadable (codes "created_at") m.created_at, tt),
      ),
    ),
  ),
)

abbrev pub message_object : Text → Text → Message → JsonObject
message_object key name m = insert (codes "created_at") (int64_to_string m.created_at) (
    insert (codes "content") m.content (
      insert key name
        (insert (codes "sender") m.sender (insert (codes "id") (int64_to_string m.id) []))))

abbrev joined : Text → Text → Text → Text → Text → Text
joined a b c d e = b'{' ∷ (a ++ b',' ∷ b ++ b',' ∷ c ++ b',' ∷ d ++ b',' ∷ e ++ b'}' ∷ [])

joined-mixed :
    (a b c d e : Entry)
    → joined (entry a) (entry b) (entry c) (entry d) (entry e) ≡ mixed a (b ∷ c ∷ d ∷ e ∷ [])
unfolding mixed more_entries
joined-mixed a b c d e = simp (append_assoc, append-nil)

joined_ap :
    (a b c d e f g h i j : Text)
    → a ≡ f
    → b ≡ g
    → c ≡ h
    → d ≡ i
    → e ≡ j
    → joined a b c d e ≡ joined f g h i j
joined_ap a b c d e f g h i j p q r s t = rw (p, q, r, s, t) refl

members-joined :
    (key name : Text) (m : Message)
    → joined
        (int_field (codes "id") m.id)
        (string_field (codes "sender") m.sender)
        (string_field key name)
        (string_field (codes "content") m.content)
        (int_field (codes "created_at") m.created_at)
      ≡ mixed (number_entry (codes "id") m.id) (members_behind key name m)
members-joined key name m =
    joined_ap _ _ _ _ _ _ _ _ _ _ (int_field-entry (codes "id") m.id)
      (string_field-entry (codes "sender") m.sender) (string_field-entry key name)
      (string_field-entry (codes "content") m.content)
      (int_field-entry (codes "created_at") m.created_at)
    ∙ joined-mixed (number_entry (codes "id") m.id) (text_entry (codes "sender") m.sender)
        (text_entry key name) (text_entry (codes "content") m.content)
        (number_entry (codes "created_at") m.created_at)

members-parse :
    (key name : Text) (m : Message)
    → parse_json_object (mixed (number_entry (codes "id") m.id) (members_behind key name m))
      ≡ ok (message_object key name m) []
unfolding insert_each
members-parse key name m =
    parse-mixed (number_entry (codes "id") m.id) (members_behind key name m)
      (members-IsReadable key name m)

private_message-joined :
    (m : Message)
    → private_message_json m
      ≡ mixed (number_entry (codes "id") m.id) (members_behind (codes "receiver") m.receiver m)
unfolding private_message_json
private_message-joined m = members-joined (codes "receiver") m.receiver m

room_message-joined :
    (m : Message)
    → room_message_json m
      ≡ mixed (number_entry (codes "id") m.id) (members_behind (codes "room") m.room_id m)
unfolding room_message_json
room_message-joined m = members-joined (codes "room") m.room_id m

-- A stored message as it stands in the answer to a request for a private history, or for that of a
-- room, whatever its texts are, is read back with the whole text consumed, as its sender, its
-- receiver or its room, its content, and the digits of its id and of its time; and these digits are
-- the id and the time.
pub parse-message_json :
    (m : Message)
    → (parse_json_object (private_message_json m)
        ≡ ok (message_object (codes "receiver") m.receiver m) [])
      × (parse_json_object (room_message_json m)
          ≡ ok (message_object (codes "room") m.room_id m) [])
      × (read_digits (int64_to_string m.id) 0 ≡ m.id)
      × (read_digits (int64_to_string m.created_at) 0 ≡ m.created_at)
parse-message_json m = (
  ap parse_json_object (private_message-joined m) ∙ members-parse (codes "receiver") m.receiver m,
  ap parse_json_object (room_message-joined m) ∙ members-parse (codes "room") m.room_id m,
  read_digits-int64_to_string m.id,
  read_digits-int64_to_string m.created_at,
)
