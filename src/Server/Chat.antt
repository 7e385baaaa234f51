-- ===== src/Server/Chat.antt =====
-- Messages, rooms and histories: server/ChatServer.cc.
use chat_service.Base.{
  ℕ, Text, List, [], ◌∷◌, ◌++◌, Option, none, some, is_empty, codes, insert, if◌then◌else◌, not,
}
use chat_service.Json.{JsonObject, make_json_line, escape_json_string}
use chat_service.Names.{is_valid_name}
use chat_service.Protocol.{make_ok_response}
use chat_service.RoomManager
use chat_service.RoomManager.{RoomManager, members_for_message}
use chat_service.Server.Numbers.{int64_to_string, parse_history_limit, parse_before_timestamp}
use chat_service.Server.State.{
  ChatServer, Message, Storage, send, send_json, send_error, send_all, when_logged_in,
}
use chat_service.Status.{Status, success, failure}
use chat_service.UserManager.{Connection, find_user, find_many}

-- `appendJsonStringField` and `appendJsonIntField`, behind the first field or as the first.
unfoldable pub string_field : Text → Text → Text
string_field key value =
    0x22 ∷ (escape_json_string key ++ 0x22 ∷ b':' ∷ 0x22 ∷ (escape_json_string value ++ 0x22 ∷ []))

unfoldable pub int_field : Text → ℕ → Text
int_field key value = 0x22 ∷ (escape_json_string key ++ 0x22 ∷ b':' ∷ int64_to_string value)

abbrev pub comma : Text → Text
comma text = b',' ∷ text

unfoldable pub private_message_json : Message → Text
unfolding string_field int_field
private_message_json m =
    b'{'
    ∷ (int_field (codes "id") m.id
        ++ comma (string_field (codes "sender") m.sender)
        ++ comma (string_field (codes "receiver") m.receiver)
        ++ comma (string_field (codes "content") m.content)
        ++ comma (int_field (codes "created_at") m.created_at)
        ++ b'}' ∷ [])

unfoldable pub room_message_json : Message → Text
unfolding string_field int_field
room_message_json m =
    b'{'
    ∷ (int_field (codes "id") m.id
        ++ comma (string_field (codes "sender") m.sender)
        ++ comma (string_field (codes "room") m.room_id)
        ++ comma (string_field (codes "content") m.content)
        ++ comma (int_field (codes "created_at") m.created_at)
        ++ b'}' ∷ [])

-- The loop over the messages, with a comma between two.
unfoldable pub comma_separated : (Message → Text) → List Message → Text
comma_separated print [] = []
comma_separated print (m ∷ []) = print m
comma_separated print (m ∷ n ∷ ms) = print m ++ comma (comma_separated print (n ∷ ms))

unfoldable pub history_response : Text → Text → Text → Text → Text
unfolding string_field
history_response type key name messages =
    b'{'
    ∷ (string_field (codes "type") type
        ++ comma (string_field key name)
        ++ codes ",\"messages\":["
        ++ messages
        ++ codes "]}\n")

unfoldable pub build_private_history_response : Text → List Message → Text
unfolding private_message_json comma_separated history_response
build_private_history_response peer messages =
    history_response (codes "history_private_result") (codes "peer") peer
      (comma_separated private_message_json messages)

unfoldable pub build_room_history_response : Text → List Message → Text
unfolding room_message_json comma_separated history_response
build_room_history_response room messages =
    history_response (codes "history_room_result") (codes "room") room
      (comma_separated room_message_json messages)

unfoldable pub private_event : Text → Text → ℕ → ℕ → JsonObject
private_event from message id created_at =
    insert (codes "created_at") (int64_to_string created_at) (
      insert (codes "id") (int64_to_string id) (
        insert (codes "message") message
          (insert (codes "from") from (insert (codes "type") (codes "private") []))))

unfoldable pub private_answer : Text → Text → ℕ → ℕ → JsonObject
private_answer text target id created_at =
    insert (codes "created_at") (int64_to_string created_at) (
      insert (codes "id") (int64_to_string id)
        (insert (codes "target") target (make_ok_response text)))

unfoldable pub room_event : Text → Text → Text → ℕ → ℕ → JsonObject
room_event room from message id created_at =
    insert (codes "created_at") (int64_to_string created_at) (
      insert (codes "id") (int64_to_string id) (
        insert (codes "message") message (
          insert (codes "from") from
            (insert (codes "room") room (insert (codes "type") (codes "room") [])))))

module _ {St : Type 0} where
  -- The rest of `sendPrivate` once the message is stored under `id`.
  unfoldable pub deliver_private :
      Connection → Option Connection → Text → Text → Text → ℕ → ℕ → ChatServer St → ChatServer St
  unfolding private_event private_answer
  deliver_private c (some d) from target message id now s =
      send_json c (private_answer (codes "private message sent") target id now)
        (send d (make_json_line (private_event from message id now)) s)
  deliver_private c none from target message id now s =
      send_json c (private_answer (codes "private message saved") target id now) s

  unfoldable pub stored_private :
      Connection → Text → Text → Text → ℕ → Option ℕ × St → ChatServer St → ChatServer St
  unfolding deliver_private
  stored_private c from target message now (none, store) s =
      send_error c (codes "failed to save private message") (record s { store = store })
  stored_private c from target message now (some id, store) s =
      deliver_private c (find_user target s.users) from target message id now
        (record s { store = store })

  -- The answer to a room operation.
  unfoldable pub room_answer :
      Connection → Text → RoomManager × Status → ChatServer St → ChatServer St
  room_answer c text (rooms, failure e) s = send_error c e (record s { rooms = rooms })
  room_answer c text (rooms, success) s =
      send_json c (make_ok_response text) (record s { rooms = rooms })

  unfoldable pub create_room : Connection → Text → ChatServer St → ChatServer St
  unfolding room_answer
  create_room c room s =
      when_logged_in c s
        λ name. room_answer c (codes "room created") (RoomManager.create_room room s.rooms) s

  unfoldable pub join_room : Connection → Text → ChatServer St → ChatServer St
  unfolding room_answer
  join_room c room s =
      when_logged_in c s
        λ name. room_answer c (codes "joined room") (RoomManager.join_room room name s.rooms) s

  unfoldable pub leave_room : Connection → Text → ChatServer St → ChatServer St
  unfolding room_answer
  leave_room c room s =
      when_logged_in c s
        λ name. room_answer c (codes "left room") (RoomManager.leave_room room name s.rooms) s

  -- The rest of `sendRoomMessage` once the message is stored.
  unfoldable pub stored_room :
      Connection
      → Text
      → Text
      → Text
      → ℕ
      → List Text
      → Option ℕ × St
      → ChatServer St
      → ChatServer St
  unfolding room_event
  stored_room c room from message now members (none, store) s =
      send_error c (codes "failed to save room message") (record s { store = store })
  stored_room c room from message now members (some id, store) s =
      send_all (find_many members s.users) (make_json_line (room_event room from message id now))
        (record s { store = store })

module _ {St : Type 0} (db : Storage St) (now : ℕ) where
  -- `sendPrivate`, behind `requireLoggedIn`.
  unfoldable pub private_from : Connection → Text → Text → Text → ChatServer St → ChatServer St
  unfolding stored_private
  private_from c from target message s =
      if not (is_valid_name target)
      then send_error c (codes "invalid target username") s
      else if is_empty message
      then send_error c (codes "message cannot be empty") s
      else stored_private c from target message now
          (db.save_private_message from target message now s.store) s

  unfoldable pub send_private : Connection → Text → Text → ChatServer St → ChatServer St
  unfolding private_from
  send_private c target message s = when_logged_in c s λ from. private_from c from target message s

  -- Behind the look-up of the members.
  unfoldable pub send_to_members :
      Connection → Text → Text → Text → List Text × Status → ChatServer St → ChatServer St
  unfolding stored_room
  send_to_members c room name message (members, failure e) s = send_error c e s
  send_to_members c room name message (members, success) s =
      stored_room c room name message now members
        (db.save_room_message room name message now s.store) s

  -- `sendRoomMessage`, behind `requireLoggedIn`.
  unfoldable pub room_message_from : Connection → Text → Text → Text → ChatServer St → ChatServer St
  unfolding send_to_members
  room_message_from c name room message s =
      if is_empty message
      then send_error c (codes "message cannot be empty") s
      else send_to_members c room name message (members_for_message room name s.rooms) s

  unfoldable pub send_room_message : Connection → Text → Text → ChatServer St → ChatServer St
  unfolding room_message_from
  send_room_message c room message s =
      when_logged_in c s λ name. room_message_from c name room message s

  -- `sendPrivateHistory`, behind `requireLoggedIn`.
  unfoldable pub private_history_of :
      Connection → Text → Text → Text → Text → ChatServer St → ChatServer St
  unfolding build_private_history_response
  private_history_of c name peer limit before s =
      if not (is_valid_name peer)
      then send_error c (codes "invalid peer username") s
      else send c
          (build_private_history_response peer (
            db.load_private_history name peer (parse_history_limit limit)
              (parse_before_timestamp before) s.store))
          s

  unfoldable pub send_private_history :
      Connection → Text → Text → Text → ChatServer St → ChatServer St
  unfolding private_history_of
  send_private_history c peer limit before s =
      when_logged_in c s λ name. private_history_of c name peer limit before s

  -- `sendRoomHistory`, behind `requireLoggedIn`.
  unfoldable pub room_history_of : Connection → Text → Text → Text → ChatServer St → ChatServer St
  unfolding build_room_history_response
  room_history_of c room limit before s =
      if not (is_valid_name room)
      then send_error c (codes "invalid room name") s
      else send c
          (build_room_history_response room (
            db.load_room_history room (parse_history_limit limit) (parse_before_timestamp before)
              s.store))
          s

  unfoldable pub send_room_history : Connection → Text → Text → Text → ChatServer St → ChatServer St
  unfolding room_history_of
  send_room_history c room limit before s =
      when_logged_in c s λ name. room_history_of c room limit before s
