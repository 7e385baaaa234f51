-- ===== src/Server/Requests.antt =====
-- `ChatSession::handleRequest`, server/ChatSession.cc, and the two halves of
-- `ChatServer::onConnection`, server/ChatServer.cc, without the counters.
use chat_service.Base.{
  ℕ, Text, Bool, true, false, ◌||◌, Option, none, some, [], is_empty, codes, text_eq, if◌then◌else◌,
  not, ◌==◌,
}
use chat_service.Json.{JsonObject}
use chat_service.Protocol.{field_or_empty, make_ok_response}
use chat_service.Server.Accounts.{login, logout, send_online_users}
use chat_service.Server.Calls.{handle_call_request}
use chat_service.Server.Chat.{
  create_room, join_room, leave_room, send_private, send_room_message, send_private_history,
  send_room_history,
}
use chat_service.Server.State.{ChatServer, Storage, send_json, send_error}
use chat_service.UserManager.{Connection}

-- The first of the three fields that is there.
unfoldable pub before_field : JsonObject → Text
unfolding field_or_empty
before_field request =
    if not (is_empty (field_or_empty request (codes "before")))
    then field_or_empty request (codes "before")
    else if not (is_empty (field_or_empty request (codes "before_timestamp")))
    then field_or_empty request (codes "before_timestamp")
    else field_or_empty request (codes "beforeTimestamp")

abbrev pub is_call_type : Text → Bool
is_call_type type =
    text_eq type (codes "call_invite")
    || text_eq type (codes "call_accept")
    || text_eq type (codes "call_reject")
    || text_eq type (codes "call_cancel")
    || text_eq type (codes "call_hangup")
    || text_eq type (codes "call_timeout")
    || text_eq type (codes "webrtc_offer")
    || text_eq type (codes "webrtc_answer")
    || text_eq type (codes "ice_candidate")

module _ {St : Type 0} (db : Storage St) (now : ℕ) where
  unfoldable pub dispatch : Text → Connection → JsonObject → ChatServer St → ChatServer St
  unfolding before_field
  dispatch type c request s =
      if text_eq type (codes "login")
      then login c (field_or_empty request (codes "username")) s
      else if text_eq type (codes "logout")
      then logout c true s
      else if text_eq type (codes "users")
      then send_online_users c s
      else if text_eq type (codes "private")
      then send_private db now c (field_or_empty request (codes "target"))
          (field_or_empty request (codes "message")) s
      else if text_eq type (codes "create_room")
      then create_room c (field_or_empty request (codes "room")) s
      else if text_eq type (codes "join")
      then join_room c (field_or_empty request (codes "room")) s
      else if text_eq type (codes "leave")
      then leave_room c (field_or_empty request (codes "room")) s
      else if text_eq type (codes "room_msg")
      then send_room_message db now c (field_or_empty request (codes "room"))
          (field_or_empty request (codes "message")) s
      else if text_eq type (codes "history_private")
      then send_private_history db now c (field_or_empty request (codes "peer"))
          (field_or_empty request (codes "limit")) (before_field request) s
      else if text_eq type (codes "history_room")
      then send_room_history db now c (field_or_empty request (codes "room"))
          (field_or_empty request (codes "limit")) (before_field request) s
      else if is_call_type type
      then handle_call_request c request s
      else send_error c (codes "unknown request type") s

  unfoldable pub handle_request : Connection → JsonObject → ChatServer St → ChatServer St
  unfolding dispatch
  handle_request c request s = dispatch (field_or_empty request (codes "type")) c request s

module _ {St : Type 0} where
  abbrev pub set_context : Connection → Option Text → ChatServer St → ChatServer St
  set_context c o s = record s { sessions = λ d. if c == d then o else s.sessions d }

  unfoldable pub open_connection : Connection → ChatServer St → ChatServer St
  open_connection c s =
      send_json c (make_ok_response (codes "connected")) (set_context c (some []) s)

  unfoldable pub close_connection : Connection → ChatServer St → ChatServer St
  close_connection c s = elim (s.sessions c) [
    | none ↦ set_context c none s
    | some name ↦ set_context c none (logout c false s)
  ]
