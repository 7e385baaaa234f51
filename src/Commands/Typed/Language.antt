-- ===== src/Commands/Typed/Language.antt =====
-- The language of commands as a data type.
use chat_service.Base.{Text, Option, none, some, [], ◌∷◌, ◌++◌, insert, codes}
use chat_service.Commands.Words.{IsToken, IsTrimmed}
use chat_service.Json.{JsonObject}

pub data Command : Type 0 where
  logout users : Command
  login create_room join leave : Text → Command
  private room_msg : Text → Text → Command
  history_private history_room : Text → Option Text → Command

-- The name of a command, in capitals.
abbrev pub name_of : Command → Text
name_of logout = codes "LOGOUT"
name_of users = codes "USERS"
name_of (login u) = codes "LOGIN"
name_of (create_room r) = codes "CREATE_ROOM"
name_of (join r) = codes "JOIN"
name_of (leave r) = codes "LEAVE"
name_of (private u m) = codes "PRIVATE"
name_of (room_msg r m) = codes "ROOM_MSG"
name_of (history_private u l) = codes "HISTORY_PRIVATE"
name_of (history_room r l) = codes "HISTORY_ROOM"

abbrev pub limit_text : Option Text → Text
limit_text none = []
limit_text (some l) = 0x20 ∷ l

-- What stands behind the name.
abbrev pub arguments_of : Command → Text
arguments_of logout = []
arguments_of users = []
arguments_of (login u) = 0x20 ∷ u
arguments_of (create_room r) = 0x20 ∷ r
arguments_of (join r) = 0x20 ∷ r
arguments_of (leave r) = 0x20 ∷ r
arguments_of (private u m) = 0x20 ∷ u ++ 0x20 ∷ m
arguments_of (room_msg r m) = 0x20 ∷ r ++ 0x20 ∷ m
arguments_of (history_private u l) = 0x20 ∷ u ++ limit_text l
arguments_of (history_room r l) = 0x20 ∷ r ++ limit_text l

abbrev pub IsLimit : Option Text → Type 0
IsLimit none = Unit {0}
IsLimit (some l) = IsToken l

-- Names and limits are words, and messages are trimmed and not empty.
abbrev pub IsWritable : Command → Type 0
IsWritable logout = Unit {0}
IsWritable users = Unit {0}
IsWritable (login u) = IsToken u
IsWritable (create_room r) = IsToken r
IsWritable (join r) = IsToken r
IsWritable (leave r) = IsToken r
IsWritable (private u m) = IsToken u × IsTrimmed m
IsWritable (room_msg r m) = IsToken r × IsTrimmed m
IsWritable (history_private u l) = IsToken u × IsLimit l
IsWritable (history_room r l) = IsToken r × IsLimit l

abbrev pub plain : Text → JsonObject
plain type = insert (codes "type") type []

abbrev pub with_option : Option Text → JsonObject → JsonObject
with_option none object = object
with_option (some l) object = insert (codes "limit") l object

-- The request that the server is meant to get.
abbrev pub request_of : Command → JsonObject
request_of logout = plain (codes "logout")
request_of users = plain (codes "users")
request_of (login u) = insert (codes "username") u (plain (codes "login"))
request_of (create_room r) = insert (codes "room") r (plain (codes "create_room"))
request_of (join r) = insert (codes "room") r (plain (codes "join"))
request_of (leave r) = insert (codes "room") r (plain (codes "leave"))
request_of (private u m) =
    insert (codes "message") m (insert (codes "target") u (plain (codes "private")))
request_of (room_msg r m) =
    insert (codes "message") m (insert (codes "room") r (plain (codes "room_msg")))
request_of (history_private u l) =
    with_option l (insert (codes "peer") u (plain (codes "history_private")))
request_of (history_room r l) =
    with_option l (insert (codes "room") r (plain (codes "history_room")))
