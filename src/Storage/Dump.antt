-- ===== src/Storage/Dump.antt =====
-- `ChatStorage::dumpAllMessagesJson` of server/ChatStorage.cc: all messages as JSON text in a file.
pub mod Lines
pub mod Listing
use chat_service.Base.{
  ℕ, Text, Bool, true, false, List, [], ◌∷◌, ◌++◌, Option, none, some, codes, insert, ◌≡◌, ◌↔◌,
  refl, ap, ◌∙◌, sym, if◌then◌else◌, Bool-cases, Option-cases, inl, inr, arith, Every,
}
use mathlib.Core.List.{append_assoc, append-nil}
use chat_service.Json.{JsonObject, escape_json_string, parse_json_object}
use chat_service.Json.Mixed.{
  Entry, IsReadable, entry, more_entries, mixed, insert_each, parse-mixed,
}
use chat_service.Json.Parsed.{ok}
use chat_service.Json.Printer.{quoted}
use chat_service.Json.Lexical.{skip_whitespace}
use chat_service.Server.Numbers.{int64_to_string}
use chat_service.Server.Numbers.Digits.{
  text_entry, number_entry, text_entry-IsReadable, number_entry-IsReadable,
}
use chat_service.Server.State.{Message}
use chat_service.Status.{Status, success, failure}
use chat_service.Storage.{message_from_statement}
use chat_service.Storage.Database.{StoredRow, Sqlite}

unfoldable pub write_json_field : Text → Text → Bool → Text
write_json_field name value first =
    (if first then [] else b',' ∷ [])
    ++ (0x22
        ∷ (escape_json_string name ++ 0x22 ∷ b':' ∷ 0x22 ∷ (escape_json_string value ++ 0x22 ∷ [])))

unfoldable pub write_json_int_field : Text → ℕ → Bool → Text
write_json_int_field name value first =
    (if first then [] else b',' ∷ [])
    ++ (0x22 ∷ (escape_json_string name ++ 0x22 ∷ b':' ∷ int64_to_string value))

-- The line of one message.
unfoldable pub dumped_message : Message → Text
unfolding write_json_field write_json_int_field
dumped_message m =
    0x20
    ∷ 0x20
    ∷ b'{'
    ∷ (write_json_int_field (codes "id") m.id true
        ++ write_json_field (codes "conversation_type") m.conversation_type false
        ++ write_json_field (codes "conversation_id") m.conversation_id false
        ++ write_json_field (codes "sender") m.sender false
        ++ write_json_field (codes "receiver") m.receiver false
        ++ write_json_field (codes "room_id") m.room_id false
        ++ write_json_field (codes "content") m.content false
        ++ write_json_int_field (codes "created_at") m.created_at false
        ++ b'}' ∷ [])

-- The loop over the rows.
unfoldable pub dumped_rows : List StoredRow → Bool → Text
unfolding dumped_message
dumped_rows [] first_message = []
dumped_rows (r ∷ rs) first_message =
    (if first_message then [] else b',' ∷ 0x0a ∷ [])
    ++ dumped_message (message_from_statement r)
    ++ dumped_rows rs false

unfoldable pub dump_text : List StoredRow → Text
unfolding dumped_rows
dump_text rs = b'[' ∷ 0x0a ∷ (dumped_rows rs true ++ 0x0a ∷ b']' ∷ 0x0a ∷ [])

-- The `std::ofstream`: whether it opens, whether it is still good behind a text, and what the file
-- holds of the text when it is closed. The stream keeps the end of a text in its buffer until then, so
-- it may be good and the file may hold less.
pub record OutputFile : Type 0 where
  pub opens : Bool
  pub writes : Text → Bool
  pub holds : Text → Text

module _ {Db : Type 0} (sqlite : Sqlite Db) (output : OutputFile) where
  -- Behind the SELECT: what the file holds in the end, and the answer.
  unfoldable pub dump_rows : Db → List StoredRow → Bool → Option Text × Status
  unfolding dump_text
  dump_rows db rs finalized =
      let file = some (output.holds (dump_text rs)) in
      if output.opens
      then if finalized
        then if output.writes (dump_text rs)
          then (file, success)
          else (file, failure (codes "failed to write output file"))
        else (file, failure (sqlite.message_of db))
      else (none, failure (codes "cannot open output file"))

  unfoldable pub dump_all_messages_json : Option Db → Option Text × Status
  unfolding dump_rows
  dump_all_messages_json none = (none, failure (codes "database is not initialized"))
  dump_all_messages_json (some db) = elim (sqlite.select_all db) [
    | none ↦ (none, failure (sqlite.message_of db))
    | some (rs, finalized) ↦ dump_rows db rs finalized
  ]

module _ {Db : Type 0} (sqlite : Sqlite Db) (output : OutputFile) where
  -- What has to hold for a dump.
  abbrev pub CanDump : Option Db → List StoredRow → Type 0
  CanDump none rs = ⊥
  CanDump (some db) rs =
      (sqlite.select_all db ≡ some (rs, true))
      × (output.opens ≡ true)
      × (output.writes (dump_text rs) ≡ true)

  dump_rows-success :
      (db : Db) (rs : List StoredRow) (finalized : Bool) (text : Option Text)
      → dump_rows sqlite output db rs finalized ≡ (text, success)
      → (finalized ≡ true)
        × (output.opens ≡ true)
        × (output.writes (dump_text rs) ≡ true)
        × (text ≡ some (output.holds (dump_text rs)))
  unfolding dump_rows
  dump_rows-success db rs finalized text h = ground arith

  dump_rows-dumps :
      (db : Db) (rs : List StoredRow)
      → output.opens ≡ true
      → output.writes (dump_text rs) ≡ true
      → dump_rows sqlite output db rs true ≡ (some (output.holds (dump_text rs)), success)
  unfolding dump_rows
  dump_rows-dumps db rs h k = rw (h, k) refl

  selected-dump :
      (db : Db) (rs : List StoredRow) (finalized : Bool)
      → sqlite.select_all db ≡ some (rs, finalized)
      → dump_all_messages_json sqlite output (some db) ≡ dump_rows sqlite output db rs finalized
  unfolding dump_all_messages_json
  selected-dump db rs finalized h = rw (h, dump_all_messages_json) refl

  failed-dump :
      (db : Db)
      → sqlite.select_all db ≡ none
      → dump_all_messages_json sqlite output (some db) ≡ (none, failure (sqlite.message_of db))
  unfolding dump_all_messages_json
  failed-dump db h = rw (h, dump_all_messages_json) refl

  pub dump-CanDump :
      (db : Option Db) (text : Option Text)
      → dump_all_messages_json sqlite output db ≡ (text, success)
      → (rs : List StoredRow) × CanDump db rs × (text ≡ some (output.holds (dump_text rs)))
  dump-CanDump none text h = unfold dump_all_messages_json in absurd (ground arith)
  dump-CanDump (some db) text h = elim (Option-cases (sqlite.select_all db)) [
    | inl k ↦ let e = sym (failed-dump db k) ∙ h in absurd (ground arith)
    | inr ((rs, finalized), k) ↦
        let (f, o, w, t) =
          dump_rows-success db rs finalized text (sym (selected-dump db rs finalized k) ∙ h) in
        (rs, (k ∙ ap (λ x. some (rs, x)) f, o, w), t)
  ]

  pub CanDump-dump :
      (db : Option Db) (rs : List StoredRow)
      → CanDump db rs
      → dump_all_messages_json sqlite output db ≡ (some (output.holds (dump_text rs)), success)
  CanDump-dump none rs h = absurd h
  CanDump-dump (some db) rs h = selected-dump db rs true h.0 ∙ dump_rows-dumps db rs h.1 h.2
