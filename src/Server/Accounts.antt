-- ===== src/Server/Accounts.antt =====
-- Logging in and out, and the list of users: server/ChatServer.cc.
use chat_service.Base.{
  Text, Bool, [], ◌++◌, Option, none, some, is_empty, codes, insert, if◌then◌else◌, not,
}
use chat_service.CallManager.{
  CallDisconnectEvent, CallUserState, calling, ringing, same_state, remove_user,
}
use chat_service.Json.{JsonObject, make_json_line}
use chat_service.Protocol.{join_list, make_ok_response}
use chat_service.RoomManager.{leave_all}
use chat_service.Status.{Status, success, failure}
use chat_service.UserManager
use chat_service.UserManager.{UserManager, Connection, find_user, online_users}
use chat_service.Server.State.{ChatServer, send_json, send_error, send_if, username, set_username}

-- `makeCallEvent`
unfoldable pub make_call_event : Text → Text → Text → Text → Text → JsonObject
make_call_event type from to call_id reason =
    let event =
      insert (codes "call_id") call_id
        (insert (codes "to") to (insert (codes "from") from (insert (codes "type") type []))) in
    if is_empty reason then event else insert (codes "reason") reason event

-- What the other end of a call is told of, by the state that the user was in.
unfoldable pub disconnect_type : CallUserState → Text
unfolding same_state
disconnect_type state =
    if same_state state calling
    then codes "call_cancel"
    else if same_state state ringing
    then codes "call_reject"
    else codes "call_hangup"

module _ {St : Type 0} where
  -- The rest of `login`, on the answer of the user manager.
  unfoldable pub logged_in :
      Connection → Text → UserManager × Status → ChatServer St → ChatServer St
  logged_in c name (users, failure e) s = send_error c e (record s { users = users })
  logged_in c name (users, success) s =
      send_json c (make_ok_response (codes "logged in as " ++ name))
        (set_username c name (record s { users = users }))

  unfoldable pub login : Connection → Text → ChatServer St → ChatServer St
  unfolding logged_in
  login c name s =
      if not (is_empty (username c s))
      then send_error c (codes "session is already logged in") s
      else logged_in c name (UserManager.login name c s.users) s

  -- The message to the other end, if the user was in a call.
  unfoldable pub tell_peer : Text → Option CallDisconnectEvent → ChatServer St → ChatServer St
  unfolding make_call_event disconnect_type
  tell_peer name none s = s
  tell_peer name (some event) s =
      send_if (find_user event.peer s.users)
        (make_json_line (
          make_call_event (disconnect_type event.disconnected_state) name event.peer event.call_id
            (codes "peer_disconnected")))
        s

  -- The user of a session leaves: the call, the rooms, the user map and the session, in this order.
  unfoldable pub log_out_user : Connection → Text → ChatServer St → ChatServer St
  unfolding tell_peer
  log_out_user c name s =
      let (calls, event) = remove_user name s.calls in
      let told = tell_peer name event (record s { calls = calls }) in
      set_username c [] (record told {
        rooms = leave_all name told.rooms;
        users = UserManager.logout name c told.users;
      })

  unfoldable pub logout : Connection → Bool → ChatServer St → ChatServer St
  unfolding log_out_user
  logout c notify s =
      if is_empty (username c s)
      then (if notify then send_error c (codes "session is not logged in") s else s)
      else if notify
      then send_json c (make_ok_response (codes "logged out")) (log_out_user c (username c s) s)
      else log_out_user c (username c s) s

  unfoldable pub send_online_users : Connection → ChatServer St → ChatServer St
  send_online_users c s =
      send_json c
        (insert (codes "users") (join_list (online_users s.users))
          (insert (codes "type") (codes "users") []))
        s
