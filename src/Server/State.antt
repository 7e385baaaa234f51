-- ===== src/Server/State.antt =====
-- The state of server/ChatServer.h, what its handlers send, and the sessions of
-- server/ChatSession.cc. A handler is one step on the state; what a connection is sent is kept in the
-- order of the calls of `send`.
use chat_service.Base.{
  ℕ, Text, List, [], ◌∷◌, ◌++◌, Option, none, some, is_empty, codes, ◌==◌, if◌then◌else◌,
}
use chat_service.Json.{JsonObject, make_json_line}
use chat_service.Protocol.{make_error_response}
use chat_service.UserManager.{UserManager, Connection}
use chat_service.RoomManager.{RoomManager}
use chat_service.CallManager.{CallManager}

-- `Message` of server/ChatStorage.h
pub record Message : Type 0 where
  pub id : ℕ
  pub conversation_type : Text
  pub conversation_id : Text
  pub sender : Text
  pub receiver : Text
  pub room_id : Text
  pub content : Text
  pub created_at : ℕ

-- What the handlers ask of server/ChatStorage.h: a save gives the id of the new row, or fails.
pub record Storage (St : Type 0) : Type 0 where
  pub save_private_message : Text → Text → Text → ℕ → St → Option ℕ × St
  pub save_room_message : Text → Text → Text → ℕ → St → Option ℕ × St
  pub load_private_history : Text → Text → ℕ → ℕ → St → List Message
  pub load_room_history : Text → ℕ → ℕ → St → List Message

-- `sessions` is the context of each connection: the name that its session holds, the empty name if
-- nobody is logged in, and `none` if there is no session.
pub record ChatServer (St : Type 0) : Type 0 where
  pub users : UserManager
  pub rooms : RoomManager
  pub calls : CallManager
  pub store : St
  pub sessions : Connection → Option Text
  pub sent : List (Connection × Text)

abbrev pub name_or_empty : Option Text → Text
name_or_empty none = []
name_or_empty (some name) = name

abbrev pub update : (Connection → Option Text) → Connection → Text → Connection → Option Text
update f c name d = if c == d then some name else f d

module _ {St : Type 0} where
  abbrev pub send : Connection → Text → ChatServer St → ChatServer St
  send c line s = record s { sent = s.sent ++ (c, line) ∷ [] }

  abbrev pub send_json : Connection → JsonObject → ChatServer St → ChatServer St
  send_json c object s = send c (make_json_line object) s

  abbrev pub send_error : Connection → Text → ChatServer St → ChatServer St
  send_error c message s = send_json c (make_error_response message) s

  -- To a connection that may be null.
  abbrev pub send_if : Option Connection → Text → ChatServer St → ChatServer St
  send_if none line s = s
  send_if (some c) line s = send c line s

  -- `for (…) (*it)->send(eventLine)`
  unfoldable pub send_all : List Connection → Text → ChatServer St → ChatServer St
  send_all [] line s = s
  send_all (c ∷ cs) line s = send_all cs line (send c line s)

  -- `session->username()`
  abbrev pub username : Connection → ChatServer St → Text
  username c s = name_or_empty (s.sessions c)

  abbrev pub set_username : Connection → Text → ChatServer St → ChatServer St
  set_username c name s = record s { sessions = update s.sessions c name }

  -- `requireLoggedIn`: the handler's rest is given the name.
  abbrev pub when_logged_in : Connection → ChatServer St → (Text → ChatServer St) → ChatServer St
  when_logged_in c s rest =
      if is_empty (username c s)
      then send_error c (codes "login required") s
      else rest (username c s)
