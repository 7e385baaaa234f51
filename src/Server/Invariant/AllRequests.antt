-- ===== src/Server/Invariant/AllRequests.antt =====
-- Any sequence of requests and disconnections, from a server that has just started.
use chat_service.Base.{
  ℕ, Text, Bool, true, false, List, [], ◌∷◌, none, some, find, is_empty, text_eq, codes,
  if◌then◌else◌, ◌≡◌, inl, inr, refl, Option-cases, ap,
}
use chat_service.CallManager
use chat_service.CallManager.Invariant.{empty-IsConsistent}
use chat_service.Json.{JsonObject}
use chat_service.Protocol.{field_or_empty}
use chat_service.RoomManager
use chat_service.RoomManager.Mirror.{empty-IsMirrored}
use chat_service.Server.Accounts.{logout}
use chat_service.Server.Chat.{
  send_private, private_from, send_room_message, room_message_from, send_private_history,
  private_history_of, send_room_history, room_history_of,
}
use chat_service.Server.Invariant.CallRequests.{handle_call_request-IsServing}
use chat_service.Server.Invariant.Preserved.{
  login-IsServing, logout-IsServing, send_online_users-IsServing, create_room-IsServing,
  join_room-IsServing, leave_room-IsServing, when_logged_in-IsServing, private_from-IsServing,
  room_message_from-IsServing, private_history_of-IsServing, room_history_of-IsServing,
  username-logout,
}
use chat_service.Server.Invariant.Serving.{IsServing, context-Serving}
use chat_service.Server.Requests.{
  dispatch, handle_request, is_call_type, before_field, open_connection, close_connection,
}
use chat_service.Server.State.{ChatServer, Storage, name_or_empty}
use chat_service.UserManager
use chat_service.UserManager.{Connection}

-- What happens to the server.
pub data Event : Type 0 where
  connect : Connection → Event
  request : Connection → JsonObject → Event
  disconnect : Connection → Event

abbrev pub started_server : {St : Type 0} → St → ChatServer St
started_server store = record {
  users = UserManager.empty;
  rooms = RoomManager.empty;
  calls = CallManager.empty;
  store = store;
  sessions = λ c. none;
  sent = [];
}

pub started_server-IsServing : {St : Type 0} (store : St) → IsServing (started_server store)
unfolding find
started_server-IsServing store = record {
  at = record {
    calls_agree = empty-IsConsistent;
    rooms_agree = empty-IsMirrored;
    online = λ u c h. cc;
    logged_in = λ c u h full. cc;
    callers_online = λ u h. cc;
    members_online = λ r u h. cc;
  };
}

module _ {St : Type 0} where
  pub open_connection-IsServing :
      (c : Connection) (s : ChatServer St)
      → IsServing s
      → s.sessions c ≡ none
      → IsServing (open_connection c s)
  unfolding open_connection is_empty
  open_connection-IsServing c s v fresh = record {
    at =
        context-Serving s.users s.rooms s.calls s.sessions v.at c (some [])
          (ap (λ o. is_empty (name_or_empty o)) fresh) refl;
  }

  pub close_connection-IsServing :
      (c : Connection) (s : ChatServer St) → IsServing s → IsServing (close_connection c s)
  unfolding close_connection is_empty
  close_connection-IsServing c s v = elim (Option-cases (s.sessions c)) [
    | inl e ↦
        rw (e, close_connection)
          (record {
            at =
                context-Serving s.users s.rooms s.calls s.sessions v.at c none
                  (ap (λ o. is_empty (name_or_empty o)) e) refl;
          })
    | inr (name, e) ↦
        let t = logout c false s in
        let w = logout-IsServing c false s v in
        rw (e, close_connection)
          (record {
            at =
                context-Serving t.users t.rooms t.calls t.sessions w.at c none (username-logout c s)
                  refl;
          })
  ]

module _ {St : Type 0} (db : Storage St) (now : ℕ) where
  -- One link of the chain of tests in `handleRequest`.
  branch :
      {x y : ChatServer St} (b : Bool) → IsServing x → IsServing y → IsServing (if b then x else y)
  branch true h k = h
  branch false h k = k

  send_private-IsServing :
      (c : Connection) (target message : Text) (s : ChatServer St)
      → IsServing s
      → IsServing (send_private db now c target message s)
  unfolding send_private
  send_private-IsServing c target message s v =
      when_logged_in-IsServing c s (λ from. private_from db now c from target message s) v
        λ from e full. private_from-IsServing db now c from target message s v

  send_room_message-IsServing :
      (c : Connection) (room message : Text) (s : ChatServer St)
      → IsServing s
      → IsServing (send_room_message db now c room message s)
  unfolding send_room_message
  send_room_message-IsServing c room message s v =
      when_logged_in-IsServing c s (λ name. room_message_from db now c name room message s) v
        λ name e full. room_message_from-IsServing db now c name room message s v

  send_private_history-IsServing :
      (c : Connection) (peer limit before : Text) (s : ChatServer St)
      → IsServing s
      → IsServing (send_private_history db now c peer limit before s)
  unfolding send_private_history
  send_private_history-IsServing c peer limit before s v =
      when_logged_in-IsServing c s (λ name. private_history_of db now c name peer limit before s) v
        λ name e full. private_history_of-IsServing db now c name peer limit before s v

  send_room_history-IsServing :
      (c : Connection) (room limit before : Text) (s : ChatServer St)
      → IsServing s
      → IsServing (send_room_history db now c room limit before s)
  unfolding send_room_history
  send_room_history-IsServing c room limit before s v =
      when_logged_in-IsServing c s (λ name. room_history_of db now c room limit before s) v
        λ name e full. room_history_of-IsServing db now c room limit before s v

  dispatch-IsServing :
      (type : Text) (c : Connection) (r : JsonObject) (s : ChatServer St)
      → IsServing s
      → IsServing (dispatch db now type c r s)
  unfolding dispatch
  dispatch-IsServing type c r s v =
      let get = field_or_empty r in
      branch (text_eq type (codes "login")) (login-IsServing c (get (codes "username")) s v) (
        branch (text_eq type (codes "logout")) (logout-IsServing c true s v) (
          branch (text_eq type (codes "users")) (send_online_users-IsServing c s v) (
            branch (text_eq type (codes "private"))
              (send_private-IsServing c (get (codes "target")) (get (codes "message")) s v)
              (branch (text_eq type (codes "create_room"))
                (create_room-IsServing c (get (codes "room")) s v)
                (branch (text_eq type (codes "join"))
                  (join_room-IsServing c (get (codes "room")) s v)
                  (branch (text_eq type (codes "leave"))
                    (leave_room-IsServing c (get (codes "room")) s v)
                    (branch (text_eq type (codes "room_msg"))
                      (send_room_message-IsServing c (get (codes "room")) (get (codes "message")) s
                        v)
                      (branch (text_eq type (codes "history_private"))
                        (send_private_history-IsServing c (get (codes "peer")) (get (codes "limit"))
                          (before_field r) s v)
                        (branch (text_eq type (codes "history_room"))
                          (send_room_history-IsServing c (get (codes "room")) (get (codes "limit"))
                            (before_field r) s v)
                          (branch (is_call_type type) (handle_call_request-IsServing c r s v)
                            (record { at = v.at })))))))))))

  pub handle_request-IsServing :
      (c : Connection) (r : JsonObject) (s : ChatServer St)
      → IsServing s
      → IsServing (handle_request db now c r s)
  unfolding handle_request
  handle_request-IsServing c r s v = dispatch-IsServing (field_or_empty r (codes "type")) c r s v

  unfoldable pub step : Event → ChatServer St → ChatServer St
  step (connect c) s = open_connection c s
  step (request c r) s = handle_request db now c r s
  step (disconnect c) s = close_connection c s

  unfoldable pub serve : ChatServer St → List Event → ChatServer St
  unfolding step
  serve s [] = s
  serve s (e ∷ es) = serve (step e s) es

  -- Each connection that arrives is new to the server: the network library makes a fresh object.
  abbrev pub Arrives : ChatServer St → List Event → Type 0
  Arrives s [] = Unit {0}
  Arrives s (connect c ∷ es) = (s.sessions c ≡ none) × Arrives (step (connect c) s) es
  Arrives s (request c r ∷ es) = Arrives (step (request c r) s) es
  Arrives s (disconnect c ∷ es) = Arrives (step (disconnect c) s) es

  serve_from-IsServing :
      (s : ChatServer St) (es : List Event) → IsServing s → Arrives s es → IsServing (serve s es)
  unfolding serve
  serve_from-IsServing s [] v a = v
  serve_from-IsServing s (connect c ∷ es) v a =
      serve_from-IsServing (step (connect c) s) es (open_connection-IsServing c s v a.0) a.1
  serve_from-IsServing s (request c r ∷ es) v a =
      serve_from-IsServing (step (request c r) s) es (handle_request-IsServing c r s v) a
  serve_from-IsServing s (disconnect c ∷ es) v a =
      serve_from-IsServing (step (disconnect c) s) es (close_connection-IsServing c s v) a

  -- From a server that has just started, whatever requests arrive and however connections come and
  -- go, each connection being new when it comes and each handler running alone: a name is online
  -- exactly with the connection whose session holds it, only online users are in rooms and in calls,
  -- and the maps of the rooms and of the calls are in agreement.
  pub serve-IsServing :
      (store : St) (es : List Event)
      → Arrives (started_server store) es
      → IsServing (serve (started_server store) es)
  serve-IsServing store es a =
      serve_from-IsServing (started_server store) es (started_server-IsServing store) a
