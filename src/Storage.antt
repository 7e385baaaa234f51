-- ===== src/Storage.antt =====
-- server/ChatStorage.cc on an SQLite database that is a parameter.
pub mod Database
pub mod Conversations
pub mod Histories
pub mod Saves
pub mod Window
pub mod RoundTrip
pub mod Dump
use chat_service.Base.{
  ℕ, suc, ◌+◌, ◌++◌, Text, Bool, true, false, List, [], ◌∷◌, Option, none, some, codes, text_lt,
  ltb, ◌==◌, if◌then◌else◌,
}
use Database.{Row, StoredRow, Sqlite}
use chat_service.Json.{escape_json_string}
use chat_service.Server.Numbers.{int64_to_string}
use chat_service.Server.State.{Message, Storage}
use chat_service.Status.{Status, success, failure}

abbrev pub default_history_limit : ℕ
default_history_limit = 50

abbrev pub max_history_limit : ℕ
max_history_limit = 500

-- `sanitizeLimit`, for limits that are not negative.
unfoldable pub sanitize_limit : ℕ → ℕ
sanitize_limit limit =
    if limit == 0
    then default_history_limit
    else if ltb max_history_limit limit
    then max_history_limit
    else limit

-- The text of a `const char*`: up to the first byte 0.
unfoldable pub c_string : Text → Text
c_string [] = []
c_string (c ∷ s) = if c == 0 then [] else c ∷ c_string s

unfoldable pub column_text : Option Text → Text
unfolding c_string
column_text none = []
column_text (some text) = c_string text

unfoldable pub message_from_statement : StoredRow → Message
unfolding column_text
message_from_statement r = record {
  id = r.id;
  conversation_type = column_text (some r.row.conversation_type);
  conversation_id = column_text (some r.row.conversation_id);
  sender = column_text (some r.row.sender);
  receiver = column_text r.row.receiver;
  room_id = column_text r.row.room_id;
  content = column_text (some r.row.content);
  created_at = r.row.created_at;
}

-- The loop over the rows, then `std::reverse`.
unfoldable pub reversed_messages : List StoredRow → List Message → List Message
unfolding message_from_statement
reversed_messages [] done = done
reversed_messages (r ∷ rs) done = reversed_messages rs (message_from_statement r ∷ done)

unfoldable pub private_conversation_id : Text → Text → Text
unfolding codes text_lt
private_conversation_id user_a user_b =
    if text_lt user_a user_b
    then codes "private:" ++ user_a ++ codes ":" ++ user_b
    else codes "private:" ++ user_b ++ codes ":" ++ user_a

unfoldable pub private_row : Text → Text → Text → ℕ → Row
unfolding private_conversation_id
private_row sender receiver content timestamp = record {
  conversation_type = codes "private";
  conversation_id = private_conversation_id sender receiver;
  sender = sender;
  receiver = some receiver;
  room_id = none;
  content = content;
  created_at = timestamp;
}

unfoldable pub room_row : Text → Text → Text → ℕ → Row
room_row room sender content timestamp = record {
  conversation_type = codes "room";
  conversation_id = room;
  sender = sender;
  receiver = none;
  room_id = some room;
  content = content;
  created_at = timestamp;
}

-- The statements of `init`.
abbrev pub set_up : List Text
set_up =
    codes "PRAGMA journal_mode=WAL;"
    ∷ codes "PRAGMA synchronous=NORMAL;"
    ∷ codes
        "CREATE TABLE IF NOT EXISTS messages (id INTEGER PRIMARY KEY AUTOINCREMENT,conversation_type TEXT NOT NULL,conversation_id TEXT NOT NULL,sender TEXT NOT NULL,receiver TEXT,room_id TEXT,content TEXT NOT NULL,created_at INTEGER NOT NULL);"
    ∷ codes
        "CREATE INDEX IF NOT EXISTS idx_messages_conversation_time ON messages(conversation_type, conversation_id, created_at);"
    ∷ []

-- `ChatStorage`: the state is `db_`, with `none` for NULL. Each method holds the mutex throughout.
module _ {Db : Type 0} (sqlite : Sqlite Db) where
  -- The chain of `exec`; the first failure ends it.
  unfoldable pub exec_all : List Text → Db → Option Db
  exec_all [] db = some db
  exec_all (sql ∷ more) db = elim (sqlite.exec sql db) [
    | none ↦ none
    | some db' ↦ exec_all more db'
  ]

  -- What was open before is closed first.
  unfoldable pub init : Text → Option Db → Option Db × Bool
  unfolding exec_all
  init path old = elim (sqlite.open_file path) [
    | none ↦ (none, false)
    | some db ↦ elim (exec_all set_up db) [ none ↦ (none, false) | some db' ↦ (some db', true) ]
  ]

  unfoldable pub save_row : Row → Option Db → Option ℕ × Option Db
  save_row r none = (none, none)
  save_row r (some db) = let (id, db') = sqlite.insert_row r db in (id, some db')

  unfoldable pub save_private_message : Text → Text → Text → ℕ → Option Db → Option ℕ × Option Db
  unfolding save_row private_row
  save_private_message sender receiver content timestamp db =
      save_row (private_row sender receiver content timestamp) db

  unfoldable pub save_room_message : Text → Text → Text → ℕ → Option Db → Option ℕ × Option Db
  unfolding save_row room_row
  save_room_message room sender content timestamp db =
      save_row (room_row room sender content timestamp) db

  -- What a SELECT that was prepared, or not, gives.
  unfoldable pub history_of : Option (List StoredRow) → List Message
  unfolding reversed_messages
  history_of none = []
  history_of (some rs) = reversed_messages rs []

  unfoldable pub load_history : Text → Text → ℕ → ℕ → Option Db → List Message
  unfolding history_of sanitize_limit
  load_history type conversation limit before none = []
  load_history type conversation limit before (some db) =
      history_of (sqlite.select_rows type conversation before (sanitize_limit limit) db)

  unfoldable pub load_private_history : Text → Text → ℕ → ℕ → Option Db → List Message
  unfolding load_history private_conversation_id
  load_private_history user_a user_b limit before db =
      load_history (codes "private") (private_conversation_id user_a user_b) limit before db

  unfoldable pub load_room_history : Text → ℕ → ℕ → Option Db → List Message
  unfolding load_history
  load_room_history room limit before db = load_history (codes "room") room limit before db

  -- The interface that the server uses.
  abbrev pub chat_storage : Storage (Option Db)
  chat_storage = record {
    save_private_message = save_private_message;
    save_room_message = save_room_message;
    load_private_history = load_private_history;
    load_room_history = load_room_history;
  }
