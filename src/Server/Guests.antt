-- ===== src/Server/Guests.antt =====
-- What a connection that nobody has logged in on can do, by the handlers of server/ChatServer.cc.
use chat_service.Base.{
  ℕ, Text, Bool, true, false, codes, is_empty, text_eq, if◌then◌else◌, ◌≡◌, refl,
}
use chat_service.Json.{JsonObject}
use chat_service.Protocol.{field_or_empty}
use chat_service.Server.Accounts.{logout, send_online_users}
use chat_service.Server.Calls.{handle_call_request}
use chat_service.Server.Chat.{
  create_room, join_room, leave_room, send_private, send_room_message, send_private_history,
  send_room_history,
}
use chat_service.Server.Requests.{dispatch, handle_request, is_call_type}
use chat_service.Server.State.{ChatServer, Storage, send, send_error, username}
use chat_service.UserManager.{Connection}

-- Everything but the lines that were sent.
pub record IsUnchanged {St : Type 0} (s t : ChatServer St) : Type 0 where
  pub users : t.users ≡ s.users
  pub rooms : t.rooms ≡ s.rooms
  pub calls : t.calls ≡ s.calls
  pub store : t.store ≡ s.store
  pub sessions : t.sessions ≡ s.sessions

module _ {St : Type 0} where
  IsUnchanged-if :
      {s t u : ChatServer St} (b : Bool)
      → IsUnchanged s t
      → IsUnchanged s u
      → IsUnchanged s (if b then t else u)
  IsUnchanged-if true h k = h
  IsUnchanged-if false h k = k

  answered-IsUnchanged :
      (c : Connection) (line : Text) (s : ChatServer St) → IsUnchanged s (send c line s)
  answered-IsUnchanged c line s = record {
    users = refl;
    rooms = refl;
    calls = refl;
    store = refl;
    sessions = refl;
  }

  -- `requireLoggedIn` keeps whatever comes behind it from happening.
  refused-IsUnchanged :
      (c : Connection) (s t : ChatServer St)
      → is_empty (username c s) ≡ true
      → IsUnchanged s
          (if is_empty (username c s) then send_error c (codes "login required") s else t)
  refused-IsUnchanged c s t h = rw h (answered-IsUnchanged c _ s)

  guest-logout :
      (c : Connection) (s : ChatServer St)
      → is_empty (username c s) ≡ true
      → IsUnchanged s (logout c true s)
  unfolding logout
  guest-logout c s h = rw h (answered-IsUnchanged c _ s)

module _ {St : Type 0} (db : Storage St) (now : ℕ) where
  guest-dispatch :
      (type : Text) (c : Connection) (r : JsonObject) (s : ChatServer St)
      → is_empty (username c s) ≡ true
      → text_eq type (codes "login") ≡ false
      → IsUnchanged s (dispatch db now type c r s)
  unfolding dispatch send_online_users create_room join_room leave_room send_private
      send_room_message send_private_history send_room_history handle_call_request
  guest-dispatch type c r s h not_login = rw not_login (
      IsUnchanged-if (text_eq type (codes "logout")) (guest-logout c s h) (
        IsUnchanged-if (text_eq type (codes "users")) (answered-IsUnchanged c _ s) (
          IsUnchanged-if (text_eq type (codes "private")) (refused-IsUnchanged c s _ h) (
            IsUnchanged-if (text_eq type (codes "create_room")) (refused-IsUnchanged c s _ h) (
              IsUnchanged-if (text_eq type (codes "join")) (refused-IsUnchanged c s _ h) (
                IsUnchanged-if (text_eq type (codes "leave")) (refused-IsUnchanged c s _ h) (
                  IsUnchanged-if (text_eq type (codes "room_msg")) (refused-IsUnchanged c s _ h) (
                    IsUnchanged-if (text_eq type (codes "history_private"))
                      (refused-IsUnchanged c s _ h)
                      (IsUnchanged-if (text_eq type (codes "history_room"))
                        (refused-IsUnchanged c s _ h)
                        (IsUnchanged-if (is_call_type type) (refused-IsUnchanged c s _ h)
                          (answered-IsUnchanged c _ s)))))))))))

  -- A request of any type but `login`, on a connection whose session holds no name, changes neither
  -- who is online, nor the rooms, the calls, the storage or any session.
  pub handle_request-IsUnchanged :
      (c : Connection) (r : JsonObject) (s : ChatServer St)
      → is_empty (username c s) ≡ true
      → text_eq (field_or_empty r (codes "type")) (codes "login") ≡ false
      → IsUnchanged s (handle_request db now c r s)
  unfolding handle_request
  handle_request-IsUnchanged c r s h not_login =
      guest-dispatch (field_or_empty r (codes "type")) c r s h not_login
