-- ===== src/Storage/Dump/Lines.antt =====
-- What is read back of a dump of server/ChatStorage.cc, message by message.
use chat_service.Base.{
  ℕ, Text, true, false, List, [], ◌∷◌, ◌++◌, codes, insert, ◌≡◌, refl, ap, ◌∙◌, sym, Every,
}
use mathlib.Core.List.{append_assoc, append-nil}
use chat_service.Json.{JsonObject, escape_json_string, parse_json_object}
use chat_service.Json.Mixed.{
  Entry, IsReadable, entry, more_entries, mixed, insert_each, parse-mixed,
}
use chat_service.Json.Parsed.{ok}
use chat_service.Json.Printer.{quoted}
use chat_service.Json.Lexical.{skip_whitespace}
use chat_service.Server.Numbers.{int64_to_string}
use chat_service.Server.Numbers.Digits.{
  text_entry, number_entry, text_entry-IsReadable, number_entry-IsReadable,
}
use chat_service.Server.State.{Message}
use chat_service.Storage.Dump.{write_json_field, write_json_int_field, dumped_message}

write_json_field-entry :
    (name value : Text)
    → (write_json_field name value true ≡ entry (text_entry name value))
      × (write_json_field name value false ≡ b',' ∷ entry (text_entry name value))
unfolding write_json_field entry quoted
write_json_field-entry name value =
    let e =
      append_assoc (escape_json_string name) (0x22 ∷ [])
        (b':' ∷ 0x22 ∷ (escape_json_string value ++ 0x22 ∷ [])) in
    (ap (λ t. 0x22 ∷ t) (sym e), ap (λ t. b',' ∷ 0x22 ∷ t) (sym e))

write_json_int_field-entry :
    (name : Text) (value : ℕ)
    → (write_json_int_field name value true ≡ entry (number_entry name value))
      × (write_json_int_field name value false ≡ b',' ∷ entry (number_entry name value))
unfolding write_json_int_field entry quoted
write_json_int_field-entry name value =
    let e = append_assoc (escape_json_string name) (0x22 ∷ []) (b':' ∷ int64_to_string value) in
    (ap (λ t. 0x22 ∷ t) (sym e), ap (λ t. b',' ∷ 0x22 ∷ t) (sym e))

abbrev eight : Text → Text → Text → Text → Text → Text → Text → Text → Text
eight a b c d e f g h = b'{' ∷ (a ++ b ++ c ++ d ++ e ++ f ++ g ++ h ++ b'}' ∷ [])

eight-mixed :
    (a b c d e f g h : Entry) (s t u v w x y z : Text)
    → s ≡ entry a
    → t ≡ b',' ∷ entry b
    → u ≡ b',' ∷ entry c
    → v ≡ b',' ∷ entry d
    → w ≡ b',' ∷ entry e
    → x ≡ b',' ∷ entry f
    → y ≡ b',' ∷ entry g
    → z ≡ b',' ∷ entry h
    → eight s t u v w x y z ≡ mixed a (b ∷ c ∷ d ∷ e ∷ f ∷ g ∷ h ∷ [])
unfolding mixed more_entries
eight-mixed a b c d e f g h s t u v w x y z i j k l m n o p =
    rw (i, j, k, l, m, n, o, p) (simp (append_assoc, append-nil))

abbrev behind_id : Message → List Entry
behind_id m =
    text_entry (codes "conversation_type") m.conversation_type
    ∷ text_entry (codes "conversation_id") m.conversation_id
    ∷ text_entry (codes "sender") m.sender
    ∷ text_entry (codes "receiver") m.receiver
    ∷ text_entry (codes "room_id") m.room_id
    ∷ text_entry (codes "content") m.content
    ∷ number_entry (codes "created_at") m.created_at
    ∷ []

behind_id-IsReadable : (m : Message) → Every IsReadable (behind_id m)
behind_id-IsReadable m = (
  text_entry-IsReadable (codes "conversation_type") m.conversation_type,
  (
    text_entry-IsReadable (codes "conversation_id") m.conversation_id,
    (
      text_entry-IsReadable (codes "sender") m.sender,
      (
        text_entry-IsReadable (codes "receiver") m.receiver,
        (
          text_entry-IsReadable (codes "room_id") m.room_id,
          (
            text_entry-IsReadable (codes "content") m.content,
            (number_entry-IsReadable (codes "created_at") m.created_at, tt),
          ),
        ),
      ),
    ),
  ),
)

dumped_message-mixed :
    (m : Message)
    → dumped_message m ≡ 0x20 ∷ 0x20 ∷ mixed (number_entry (codes "id") m.id) (behind_id m)
unfolding dumped_message
dumped_message-mixed m =
    ap (λ t. 0x20 ∷ 0x20 ∷ t)
      (eight-mixed _ _ _ _ _ _ _ _ _ _ _ _ _ _ _ _ (write_json_int_field-entry (codes "id") m.id).0
        (write_json_field-entry (codes "conversation_type") m.conversation_type).1
        (write_json_field-entry (codes "conversation_id") m.conversation_id).1
        (write_json_field-entry (codes "sender") m.sender).1
        (write_json_field-entry (codes "receiver") m.receiver).1
        (write_json_field-entry (codes "room_id") m.room_id).1
        (write_json_field-entry (codes "content") m.content).1
        (write_json_int_field-entry (codes "created_at") m.created_at).1)

parse-spaces : (t : Text) → parse_json_object (0x20 ∷ 0x20 ∷ t) ≡ parse_json_object t
unfolding parse_json_object skip_whitespace
parse-spaces t = refl

-- All fields of a message.
abbrev pub full_object : Message → JsonObject
full_object m = insert (codes "created_at") (int64_to_string m.created_at) (
    insert (codes "content") m.content (
      insert (codes "room_id") m.room_id (
        insert (codes "receiver") m.receiver (
          insert (codes "sender") m.sender (
            insert (codes "conversation_id") m.conversation_id (
              insert (codes "conversation_type") m.conversation_type
                (insert (codes "id") (int64_to_string m.id) [])))))))

-- What is dumped of a message, whatever its texts are, is read back by the reader of common/Json.cc
-- with the whole text consumed, as all fields of the message, its numbers as their digits.
pub parse-dumped_message :
    (m : Message) → parse_json_object (dumped_message m) ≡ ok (full_object m) []
unfolding insert_each
parse-dumped_message m =
    ap parse_json_object (dumped_message-mixed m)
    ∙ parse-spaces (mixed (number_entry (codes "id") m.id) (behind_id m))
    ∙ parse-mixed (number_entry (codes "id") m.id) (behind_id m)
        (number_entry-IsReadable (codes "id") m.id, behind_id-IsReadable m)
