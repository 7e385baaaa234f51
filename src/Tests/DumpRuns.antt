-- ===== src/Tests/DumpRuns.antt =====
-- Stored messages as text: server/ChatStorage.cc and server/ChatServer.cc.
use chat_service.Base.{List, [], some, true, codes, ◌≡◌, ◌↔◌}
use chat_service.Json.{ok, parse_json_object}
use chat_service.Server.Chat.{private_message_json, room_message_json}
use chat_service.Server.Messages.{message_object, parse-message_json}
use chat_service.Server.Numbers.{int64_to_string, read_digits}
use chat_service.Server.State.{Message}
use chat_service.Status.{success}
use chat_service.Storage.Database.{StoredRow}
use chat_service.Storage.Dump.{
  OutputFile, dumped_message, dump_text, dump_all_messages_json, CanDump,
}
use chat_service.Storage.Dump.Listing.{IsDump, dump_all_messages_json_iff}
use chat_service.Storage.Dump.Lines.{full_object, parse-dumped_message}
use chat_service.Tests.StorageRuns.{listed, first_row}

-- A message with a quote and a line break in it.
abbrev note : Message
note = record {
  id = 12;
  conversation_type = codes "private";
  conversation_id = codes "private:ann:bob";
  sender = codes "ann";
  receiver = codes "bob";
  room_id = [];
  content = codes "a\"b\n";
  created_at = 1_700_000_000;
}

parse-message_json_example :
    (parse_json_object (private_message_json note)
      ≡ ok (message_object (codes "receiver") (codes "bob") note) [])
    × (parse_json_object (room_message_json note) ≡ ok (message_object (codes "room") [] note) [])
    × (read_digits (int64_to_string 12) 0 ≡ 12)
    × (read_digits (int64_to_string 1_700_000_000) 0 ≡ 1_700_000_000)
parse-message_json_example = parse-message_json note

parse-dumped_message_example : parse_json_object (dumped_message note) ≡ ok (full_object note) []
parse-dumped_message_example = parse-dumped_message note

abbrev disk : OutputFile
disk = record { opens = true; writes = λ text. true; holds = λ text. text }

dump_all_messages_json_iff_example :
    (dump_all_messages_json listed disk (some first_row) ≡ (some (dump_text first_row), success))
    ↔ ((rs : List StoredRow) × CanDump listed disk (some first_row) rs
        × (some (dump_text first_row) ≡ some (dump_text rs))
        × IsDump (dump_text rs) rs)
dump_all_messages_json_iff_example =
    dump_all_messages_json_iff listed disk (some first_row) (some (dump_text first_row))
