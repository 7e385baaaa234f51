-- ===== src/Server/Invariant/Preserved/Rooms.antt =====
-- The invariant of the server while lines are sent, and in the handlers of rooms, of
-- server/ChatServer.cc.
use chat_service.Base.{
  Text, Bool, true, false, List, [], ◌∷◌, some, is_some, is_empty, codes, if◌then◌else◌, ◌≡◌, inl,
  inr, refl, sym, ap, ◌∙◌, subst, arith, Option-cases,
}
use chat_service.RoomManager
use chat_service.RoomManager.{RoomManager}
use chat_service.Server.Accounts.{send_online_users}
use chat_service.Server.Chat.{create_room, join_room, leave_room, room_answer}
use chat_service.Server.Invariant.Serving.{
  Serving, IsServing, create-Serving, join-Serving, leave-Serving,
}
use chat_service.Server.State.{ChatServer, send, send_all, username, when_logged_in, name_or_empty}
use chat_service.Status.{Status, success, failure}
use chat_service.UserManager.{Connection}

module _ {St : Type 0} where
  pub IsServing-if :
      {x y : ChatServer St} (b : Bool)
      → (b ≡ true → IsServing x)
      → (b ≡ false → IsServing y)
      → IsServing (if b then x else y)
  IsServing-if true h k = h refl
  IsServing-if false h k = k refl

  -- Sending a line.
  pub sent-IsServing :
      {s : ChatServer St} (c : Connection) (line : Text) → IsServing s → IsServing (send c line s)
  sent-IsServing c line v = record { at = v.at }

  pub send_all-IsServing :
      (cs : List Connection) (line : Text) (s : ChatServer St)
      → IsServing s
      → IsServing (send_all cs line s)
  unfolding send_all
  send_all-IsServing [] line s v = v
  send_all-IsServing (c ∷ cs) line s v =
      send_all-IsServing cs line (send c line s) (record { at = v.at })

  pub when_logged_in-IsServing :
      (c : Connection) (s : ChatServer St) (rest : Text → ChatServer St)
      → IsServing s
      → ((name : Text) → s.sessions c ≡ some name → is_empty name ≡ false → IsServing (rest name))
      → IsServing (when_logged_in c s rest)
  when_logged_in-IsServing c s rest v k =
      IsServing-if (is_empty (username c s)) (λ _. record { at = v.at })
        (λ full. elim (Option-cases (s.sessions c)) [
          | inl e ↦ absurd (unfold is_empty in ground arith)
          | inr (name, e) ↦
              subst (λ n. IsServing (rest n)) (sym (ap name_or_empty e))
                (k name e (ap is_empty (sym (ap name_or_empty e)) ∙ full))
        ])

  room_answer-IsServing :
      (c : Connection) (text : Text) (r : RoomManager × Status) (s : ChatServer St)
      → Serving s.users r.0 s.calls s.sessions
      → IsServing (room_answer c text r s)
  unfolding room_answer
  room_answer-IsServing c text (rooms, failure e) s v = record { at = v }
  room_answer-IsServing c text (rooms, success) s v = record { at = v }

  pub create_room-IsServing :
      (c : Connection) (room : Text) (s : ChatServer St)
      → IsServing s
      → IsServing (create_room c room s)
  unfolding create_room
  create_room-IsServing c room s v = when_logged_in-IsServing c s _ v λ name e full.
      room_answer-IsServing c (codes "room created") (RoomManager.create_room room s.rooms) s
        (create-Serving s.users s.rooms s.calls s.sessions v.at room)

  pub join_room-IsServing :
      (c : Connection) (room : Text) (s : ChatServer St)
      → IsServing s
      → IsServing (join_room c room s)
  unfolding join_room
  join_room-IsServing c room s v = when_logged_in-IsServing c s _ v λ name e full.
      room_answer-IsServing c (codes "joined room") (RoomManager.join_room room name s.rooms) s (
        join-Serving s.users s.rooms s.calls s.sessions v.at room name
          (ap is_some (v.at.logged_in c name e full)))

  pub leave_room-IsServing :
      (c : Connection) (room : Text) (s : ChatServer St)
      → IsServing s
      → IsServing (leave_room c room s)
  unfolding leave_room
  leave_room-IsServing c room s v = when_logged_in-IsServing c s _ v λ name e full.
      room_answer-IsServing c (codes "left room") (RoomManager.leave_room room name s.rooms) s
        (leave-Serving s.users s.rooms s.calls s.sessions v.at room name)

  pub send_online_users-IsServing :
      (c : Connection) (s : ChatServer St) → IsServing s → IsServing (send_online_users c s)
  unfolding send_online_users
  send_online_users-IsServing c s v = record { at = v.at }
