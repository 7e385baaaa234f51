-- ===== src/Server/Invariant/Preserved.antt =====
-- Every request of server/ChatSession.cc keeps the parts of the server in agreement.
pub mod Rooms
pub use Rooms.*
use chat_service.Base.{
  ℕ, Text, Bool, true, false, not, List, [], ◌∷◌, ◌++◌, Option, none, some, is_some, is_empty,
  codes, if◌then◌else◌, ◌≡◌, inl, inr, refl, sym, ap, ◌∙◌, subst, arith, Bool-cases, Option-cases,
  ==_iff,
}
use chat_service.CallManager.{CallDisconnectEvent, remove_user}
use chat_service.Names.{is_valid_name, is_valid_name-nonempty}
use chat_service.RoomManager
use chat_service.RoomManager.{RoomManager}
use chat_service.Server.Accounts.{
  login, logged_in, logout, log_out_user, tell_peer, send_online_users,
}
use chat_service.Server.Chat.{
  create_room, join_room, leave_room, room_answer, stored_private, deliver_private, send_to_members,
  private_from, room_message_from, private_history_of, room_history_of, stored_room,
}
use chat_service.Server.Invariant.Serving.{
  Serving, IsServing, login-Serving, logout-Serving, create-Serving, join-Serving, leave-Serving,
}
use chat_service.UserManager.Online.{login_cases}
use chat_service.Server.State.{
  ChatServer, Storage, send, send_all, send_if, set_username, username, when_logged_in,
  name_or_empty,
}
use chat_service.Status.{Status, success, failure}
use chat_service.UserManager
use chat_service.UserManager.{UserManager, Connection, find_user, find_many}

module _ {St : Type 0} where
  logged_in-IsServing :
      (c : Connection) (name : Text) (s : ChatServer St)
      → IsServing s
      → is_empty (username c s) ≡ true
      → IsServing (logged_in c name (UserManager.login name c s.users) s)
  unfolding logged_in
  logged_in-IsServing c name s v out = elim (login_cases s.users name c) [
    | inl (e, eq) ↦ subst (λ r. IsServing (logged_in c name r s)) (sym eq) (record { at = v.at })
    | inr (valid, free, eq) ↦
        subst (λ r. IsServing (logged_in c name r s)) (sym eq)
          (record {
            at =
                login-Serving s.users s.rooms s.calls s.sessions v.at c name out
                  (is_valid_name-nonempty name valid) free;
          })
  ]

  pub login-IsServing :
      (c : Connection) (name : Text) (s : ChatServer St) → IsServing s → IsServing (login c name s)
  unfolding login
  login-IsServing c name s v =
      IsServing-if (not (is_empty (username c s))) (λ _. record { at = v.at })
        (λ h. logged_in-IsServing c name s v (ground arith))

  send_if-sent :
      (o : Option Connection) (line : Text) (s : ChatServer St)
      → (sent : List (Connection × Text)) × (send_if o line s ≡ record s { sent = sent })
  send_if-sent none line s = (s.sent, refl)
  send_if-sent (some c) line s = (s.sent ++ (c, line) ∷ [], refl)

  -- Telling the other end changes nothing but what is sent.
  tell_peer-sent :
      (name : Text) (event : Option CallDisconnectEvent) (s : ChatServer St)
      → (sent : List (Connection × Text)) × (tell_peer name event s ≡ record s { sent = sent })
  unfolding tell_peer
  tell_peer-sent name none s = (s.sent, refl)
  tell_peer-sent name (some event) s = send_if-sent (find_user event.peer s.users) _ s

  -- The end of `logout`, whatever was sent before.
  abbrev left : Connection → Text → ChatServer St → ChatServer St
  left c name told = set_username c [] (record told {
    rooms = RoomManager.leave_all name told.rooms;
    users = UserManager.logout name c told.users;
  })

  log_out_user-IsServing :
      (c : Connection) (name : Text) (s : ChatServer St)
      → IsServing s
      → s.sessions c ≡ some name
      → is_empty name ≡ false
      → IsServing (log_out_user c name s)
  unfolding log_out_user
  log_out_user-IsServing c name s v e full =
      let (sent, told) =
        tell_peer-sent name (remove_user name s.calls).1
          (record s { calls = (remove_user name s.calls).0 }) in
      subst (λ t. IsServing (left c name t)) (sym told)
        (record { at = logout-Serving s.users s.rooms s.calls s.sessions v.at c name e full })

  -- The session of a name that is not empty.
  session_of_username :
      (c : Connection) (s : ChatServer St)
      → is_empty (username c s) ≡ false
      → s.sessions c ≡ some (username c s)
  session_of_username c s full = elim (Option-cases (s.sessions c)) [
    | inl e ↦ absurd (unfold is_empty in ground arith)
    | inr (name, e) ↦ rw e
  ]

  pub logout-IsServing :
      (c : Connection) (notify : Bool) (s : ChatServer St)
      → IsServing s
      → IsServing (logout c notify s)
  unfolding logout
  logout-IsServing c notify s v =
      IsServing-if (is_empty (username c s))
        (λ _. IsServing-if notify (λ _. record { at = v.at }) (λ _. v))
        (λ full.
          let w = log_out_user-IsServing c (username c s) s v (session_of_username c s full) full in
          IsServing-if notify (λ _. record { at = w.at }) (λ _. w))

  -- After `logout` the session holds no name.
  pub username-logout :
      (c : Connection) (s : ChatServer St) → is_empty (username c (logout c false s)) ≡ true
  unfolding logout log_out_user is_empty
  username-logout c s = elim (Bool-cases (is_empty (username c s))) [
    | inl h ↦ ground arith
    | inr h ↦ ground (arith, ==_iff c c)
  ]

  deliver_private-IsServing :
      (c : Connection) (o : Option Connection) (from target message : Text) (id now : ℕ)
      (s : ChatServer St)
      → IsServing s
      → IsServing (deliver_private c o from target message id now s)
  unfolding deliver_private
  deliver_private-IsServing c none from target message id now s v = record { at = v.at }
  deliver_private-IsServing c (some d) from target message id now s v = record { at = v.at }

  stored_private-IsServing :
      (c : Connection) (from target message : Text) (now : ℕ) (r : Option ℕ × St)
      (s : ChatServer St)
      → IsServing s
      → IsServing (stored_private c from target message now r s)
  unfolding stored_private
  stored_private-IsServing c from target message now (none, store) s v = record { at = v.at }
  stored_private-IsServing c from target message now (some id, store) s v =
      deliver_private-IsServing c (find_user target s.users) from target message id now
        (record s { store = store }) (record { at = v.at })

  stored_room-IsServing :
      (c : Connection) (room from message : Text) (now : ℕ) (members : List Text)
      (r : Option ℕ × St) (s : ChatServer St)
      → IsServing s
      → IsServing (stored_room c room from message now members r s)
  unfolding stored_room
  stored_room-IsServing c room from message now members (none, store) s v = record { at = v.at }
  stored_room-IsServing c room from message now members (some id, store) s v =
      send_all-IsServing (find_many members s.users) _ (record s { store = store })
        (record { at = v.at })

module _ {St : Type 0} (db : Storage St) (now : ℕ) where
  pub private_from-IsServing :
      (c : Connection) (from target message : Text) (s : ChatServer St)
      → IsServing s
      → IsServing (private_from db now c from target message s)
  unfolding private_from
  private_from-IsServing c from target message s v = elim (Bool-cases (is_valid_name target)) [
    | inr h ↦ rw h (record { at = v.at })
    | inl h ↦ rw h (elim (Bool-cases (is_empty message)) [
      | inl k ↦ rw k (record { at = v.at })
      | inr k ↦ rw k (
          stored_private-IsServing c from target message now
            (db.save_private_message from target message now s.store) s v)
    ])
  ]

  send_to_members-IsServing :
      (c : Connection) (room name message : Text) (r : List Text × Status) (s : ChatServer St)
      → IsServing s
      → IsServing (send_to_members db now c room name message r s)
  unfolding send_to_members
  send_to_members-IsServing c room name message (members, failure e) s v = record { at = v.at }
  send_to_members-IsServing c room name message (members, success) s v =
      stored_room-IsServing c room name message now members
        (db.save_room_message room name message now s.store) s v

  pub room_message_from-IsServing :
      (c : Connection) (name room message : Text) (s : ChatServer St)
      → IsServing s
      → IsServing (room_message_from db now c name room message s)
  unfolding room_message_from
  room_message_from-IsServing c name room message s v = elim (Bool-cases (is_empty message)) [
    | inl k ↦ rw k (record { at = v.at })
    | inr k ↦ rw k (
        send_to_members-IsServing c room name message
          (RoomManager.members_for_message room name s.rooms) s v)
  ]

  pub private_history_of-IsServing :
      (c : Connection) (name peer limit before : Text) (s : ChatServer St)
      → IsServing s
      → IsServing (private_history_of db now c name peer limit before s)
  unfolding private_history_of
  private_history_of-IsServing c name peer limit before s v =
      elim (Bool-cases (is_valid_name peer)) [
        | inr h ↦ rw h (record { at = v.at })
        | inl h ↦ rw h (record { at = v.at })
      ]

  pub room_history_of-IsServing :
      (c : Connection) (room limit before : Text) (s : ChatServer St)
      → IsServing s
      → IsServing (room_history_of db now c room limit before s)
  unfolding room_history_of
  room_history_of-IsServing c room limit before s v = elim (Bool-cases (is_valid_name room)) [
    | inr h ↦ rw h (record { at = v.at })
    | inl h ↦ rw h (record { at = v.at })
  ]
