-- ===== src/Server/Lines/Present.antt =====
-- No request takes the session away from a connection: the handlers of server/ChatServer.cc change
-- the name in it at most.
use chat_service.Base.{
  ℕ, Text, Bool, true, false, List, [], ◌∷◌, Option, none, some, is_some, codes, is_empty, text_eq,
  if◌then◌else◌, ◌≡◌, arith,
}
use chat_service.Json.{JsonObject}
use chat_service.Protocol.{field_or_empty}
use chat_service.RoomManager.{members_for_message}
use chat_service.Server.Accounts.{
  login, logged_in, logout, log_out_user, tell_peer, send_online_users,
}
use chat_service.Server.Calls.{
  handle_call_request, checked_request, call_request, invite, invited, signal, validated, operated,
}
use chat_service.Server.Chat.{
  create_room, join_room, leave_room, room_answer, send_private, private_from, stored_private,
  deliver_private, send_room_message, room_message_from, send_to_members, stored_room,
  send_private_history, private_history_of, send_room_history, room_history_of,
}
use chat_service.Server.Requests.{dispatch, handle_request, before_field, is_call_type}
use chat_service.Server.State.{ChatServer, Storage, send, send_all, username}
use chat_service.Status.{Status, success, failure}
use chat_service.UserManager.{Connection, find_many}

-- Every session of `s` is still there in `t`.
pub record Keeps {St : Type 0} (s t : ChatServer St) : Type 0 where
  pub present : (d : Connection) → is_some (s.sessions d) ≡ true → is_some (t.sessions d) ≡ true

module _ {St : Type 0} where
  Keeps-if :
      {s t u : ChatServer St} (b : Bool) → Keeps s t → Keeps s u → Keeps s (if b then t else u)
  Keeps-if true h k = h
  Keeps-if false h k = k

  send_all-Keeps :
      (cs : List Connection) (line : Text) (s : ChatServer St) → Keeps s (send_all cs line s)
  unfolding send_all
  send_all-Keeps [] line s = record { present = λ d h. h }
  send_all-Keeps (c ∷ cs) line s = record {
    present = λ d h. (send_all-Keeps cs line (send c line s)).present d h;
  }

  login-Keeps : (c : Connection) (name : Text) (s : ChatServer St) → Keeps s (login c name s)
  unfolding login logged_in
  login-Keeps c name s = record { present = λ d h. ground arith }

  logout-Keeps : (c : Connection) (b : Bool) (s : ChatServer St) → Keeps s (logout c b s)
  unfolding logout log_out_user tell_peer
  logout-Keeps c b s = record { present = λ d h. ground arith }

  send_online_users-Keeps : (c : Connection) (s : ChatServer St) → Keeps s (send_online_users c s)
  unfolding send_online_users
  send_online_users-Keeps c s = record { present = λ d h. h }

  create_room-Keeps :
      (c : Connection) (room : Text) (s : ChatServer St) → Keeps s (create_room c room s)
  unfolding create_room room_answer
  create_room-Keeps c room s = record { present = λ d h. ground arith }

  join_room-Keeps :
      (c : Connection) (room : Text) (s : ChatServer St) → Keeps s (join_room c room s)
  unfolding join_room room_answer
  join_room-Keeps c room s = record { present = λ d h. ground arith }

  leave_room-Keeps :
      (c : Connection) (room : Text) (s : ChatServer St) → Keeps s (leave_room c room s)
  unfolding leave_room room_answer
  leave_room-Keeps c room s = record { present = λ d h. ground arith }

  handle_call_request-Keeps :
      (c : Connection) (r : JsonObject) (s : ChatServer St) → Keeps s (handle_call_request c r s)
  unfolding handle_call_request checked_request call_request invite invited signal validated
      operated
  handle_call_request-Keeps c r s = record { present = λ d h. ground arith }

module _ {St : Type 0} (db : Storage St) (now : ℕ) where
  send_private-Keeps :
      (c : Connection) (target message : Text) (s : ChatServer St)
      → Keeps s (send_private db now c target message s)
  unfolding send_private private_from stored_private deliver_private
  send_private-Keeps c target message s = record { present = λ d h. ground arith }

  stored_room-Keeps :
      (c : Connection) (room from message : Text) (members : List Text) (r : Option ℕ × St)
      (s : ChatServer St)
      → Keeps s (stored_room c room from message now members r s)
  unfolding stored_room
  stored_room-Keeps c room from message members (none, store) s = record { present = λ d h. h }
  stored_room-Keeps c room from message members (some id, store) s = record {
    present = λ d h.
        (send_all-Keeps (find_many members s.users) _ (record s { store = store })).present d h;
  }

  send_to_members-Keeps :
      (c : Connection) (room name message : Text) (r : List Text × Status) (s : ChatServer St)
      → Keeps s (send_to_members db now c room name message r s)
  unfolding send_to_members
  send_to_members-Keeps c room name message (members, failure e) s = record { present = λ d h. h }
  send_to_members-Keeps c room name message (members, success) s =
      stored_room-Keeps c room name message members _ s

  send_room_message-Keeps :
      (c : Connection) (room message : Text) (s : ChatServer St)
      → Keeps s (send_room_message db now c room message s)
  unfolding send_room_message room_message_from
  send_room_message-Keeps c room message s =
      Keeps-if (is_empty (username c s)) (record { present = λ d h. h })
        (Keeps-if (is_empty message) (record { present = λ d h. h })
          (send_to_members-Keeps c room (username c s) message
            (members_for_message room (username c s) s.rooms) s))

  send_private_history-Keeps :
      (c : Connection) (peer limit before : Text) (s : ChatServer St)
      → Keeps s (send_private_history db now c peer limit before s)
  unfolding send_private_history private_history_of
  send_private_history-Keeps c peer limit before s = record { present = λ d h. ground arith }

  send_room_history-Keeps :
      (c : Connection) (room limit before : Text) (s : ChatServer St)
      → Keeps s (send_room_history db now c room limit before s)
  unfolding send_room_history room_history_of
  send_room_history-Keeps c room limit before s = record { present = λ d h. ground arith }

  dispatch-Keeps :
      (type : Text) (c : Connection) (r : JsonObject) (s : ChatServer St)
      → Keeps s (dispatch db now type c r s)
  unfolding dispatch
  dispatch-Keeps type c r s =
      let get = field_or_empty r in
      Keeps-if (text_eq type (codes "login")) (login-Keeps c (get (codes "username")) s) (
        Keeps-if (text_eq type (codes "logout")) (logout-Keeps c true s) (
          Keeps-if (text_eq type (codes "users")) (send_online_users-Keeps c s) (
            Keeps-if (text_eq type (codes "private"))
              (send_private-Keeps c (get (codes "target")) (get (codes "message")) s)
              (Keeps-if (text_eq type (codes "create_room"))
                (create_room-Keeps c (get (codes "room")) s)
                (Keeps-if (text_eq type (codes "join")) (join_room-Keeps c (get (codes "room")) s) (
                  Keeps-if (text_eq type (codes "leave"))
                    (leave_room-Keeps c (get (codes "room")) s)
                    (Keeps-if (text_eq type (codes "room_msg"))
                      (send_room_message-Keeps c (get (codes "room")) (get (codes "message")) s)
                      (Keeps-if (text_eq type (codes "history_private"))
                        (send_private_history-Keeps c (get (codes "peer")) (get (codes "limit"))
                          (before_field r) s)
                        (Keeps-if (text_eq type (codes "history_room"))
                          (send_room_history-Keeps c (get (codes "room")) (get (codes "limit"))
                            (before_field r) s)
                          (Keeps-if (is_call_type type) (handle_call_request-Keeps c r s)
                            (record { present = λ d h. h })))))))))))

  pub handle_request-Keeps :
      (c : Connection) (r : JsonObject) (s : ChatServer St) → Keeps s (handle_request db now c r s)
  unfolding handle_request
  handle_request-Keeps c r s = dispatch-Keeps (field_or_empty r (codes "type")) c r s
