-- ===== src/Server/Receivers.antt =====
-- Whom a message of `ChatServer::sendRoomMessage` and of `ChatServer::sendPrivate` reaches,
-- server/ChatServer.cc.
use mathlib.Core.List.{append_assoc, append-nil}
use chat_service.Base.{
  Option, codes, ℕ, Text, Bool, true, false, not, ◌&&◌, ◌||◌, List, [], ◌∷◌, ◌++◌, none, some, find,
  is_empty, text_eq, text_eq_iff, ◌==◌, ==_iff, ◌≡◌, inl, inr, refl, sym, ap, ◌∙◌, arith,
  Option-cases, map,
}
use chat_service.Json.{make_json_line}
use chat_service.RoomManager.{members_for_message}
use chat_service.RoomManager.Membership.{in_room}
use chat_service.RoomManager.Messages.{contains, members_for_message-members}
use chat_service.Names.{is_valid_name, is_valid_name-nonempty}
use chat_service.Server.Chat.{
  private_event, private_answer, send_private, private_from, stored_private, deliver_private,
  room_event, send_room_message, room_message_from, send_to_members, stored_room,
}
use chat_service.Server.Invariant.Serving.{IsServing}
use chat_service.Server.State.{ChatServer, Storage, send, send_all, username}
use chat_service.UserManager.{UserManager, Connection, find_many, find_user}

unfoldable pub reaches : Connection → List Connection → Bool
reaches d [] = false
reaches d (e ∷ es) = (e == d) || reaches d es

module _ {St : Type 0} (s : ChatServer St) (v : IsServing s) where
  -- One name of the list, with the connection that is found for it.
  found-reaches :
      (d e : Connection) (w : Text)
      → find w s.users.users ≡ some e
      → (e == d) ≡ (text_eq w (username d s) && not (is_empty (username d s)))
  found-reaches d e w h = elim (Option-cases (s.sessions d)) [
    | inl k ↦ rw k (unfold is_empty in ground (arith, v.at.online w e h, ==_iff e d))
    | inr (u, k) ↦
        rw k (ground (arith, v.at.online w e h, ==_iff e d, text_eq_iff w u, v.at.logged_in d u k))
  ]

  missing-reaches :
      (d : Connection) (w : Text)
      → find w s.users.users ≡ none
      → (text_eq w (username d s) && not (is_empty (username d s))) ≡ false
  missing-reaches d w h = elim (Option-cases (s.sessions d)) [
    | inl k ↦ rw k (unfold is_empty in ground arith)
    | inr (u, k) ↦ rw k (ground (arith, text_eq_iff w u, v.at.logged_in d u k))
  ]

  find_many-reaches :
      (d : Connection) (ws : List Text)
      → reaches d (find_many ws s.users)
        ≡ (contains (username d s) ws && not (is_empty (username d s)))
  unfolding find_many reaches contains
  find_many-reaches d [] = refl
  find_many-reaches d (w ∷ ws) = elim (Option-cases (find w s.users.users)) [
    | inl h ↦ ground (arith, find_many-reaches d ws, missing-reaches d w h)
    | inr (e, h) ↦ ground (arith, find_many-reaches d ws, found-reaches d e w h)
  ]

send_all-sent :
    {St : Type 0} (cs : List Connection) (line : Text) (s : ChatServer St)
    → send_all cs line s ≡ record s { sent = s.sent ++ map (λ d. (d, line)) cs }
unfolding send_all
send_all-sent [] line s = ap (λ l. record s { sent = l }) (sym (append-nil s.sent))
send_all-sent (c ∷ cs) line s =
    send_all-sent cs line (send c line s)
    ∙ ap (λ l. record s { sent = l })
        (append_assoc s.sent ((c, line) ∷ []) (map (λ d. (d, line)) cs))

-- The connections of the members who are online.
abbrev pub receivers : {St : Type 0} → Text → Text → ChatServer St → List Connection
receivers room name s = find_many (members_for_message room name s.rooms).0 s.users

-- The server after a line was sent to each of them.
abbrev pub told_room :
    {St : Type 0} → Text → Text → Text → ℕ → ℕ → St → ChatServer St → ChatServer St
told_room room name message id now store s = record s {
  store = store;
  sent =
      s.sent
      ++ map (λ e. (e, make_json_line (room_event room name message id now)))
          (receivers room name s);
}

module _ {St : Type 0} (db : Storage St) (now : ℕ) (s : ChatServer St) where
  room_message_from-saved :
      (c : Connection) (name room message : Text) (id : ℕ) (store : St)
      → is_empty message ≡ false
      → in_room room name s.rooms ≡ true
      → db.save_room_message room name message now s.store ≡ (some id, store)
      → room_message_from db now c name room message s ≡ told_room room name message id now store s
  unfolding room_message_from send_to_members stored_room
  room_message_from-saved c name room message id store text inside saved =
      let r = members_for_message room name s.rooms in
      let e = (members_for_message-members room name name s.rooms).0.1 inside in
      rw text (
        ap (λ x. send_to_members db now c room name message (r.0, x) s) e
        ∙ ap (λ z. stored_room c room name message now r.0 z s) saved
        ∙ send_all-sent (find_many r.0 s.users) _ (record s { store = store }))

  -- On a server whose parts are in agreement, when a user who is in a room sends a text that is not
  -- empty to it and the storage keeps the message: the storage is the one that the message was saved
  -- in, a line with the message and its id is sent to each of a list of connections, and nothing else
  -- changes; and a connection is in that list exactly if its session is logged in as a member of the
  -- room.
  pub send_room_message-reaches :
      (v : IsServing s) (c d : Connection) (name room message : Text) (id : ℕ) (store : St)
      → s.sessions c ≡ some name
      → is_empty name ≡ false
      → is_empty message ≡ false
      → in_room room name s.rooms ≡ true
      → db.save_room_message room name message now s.store ≡ (some id, store)
      → (send_room_message db now c room message s ≡ told_room room name message id now store s)
        × (reaches d (receivers room name s)
            ≡ (in_room room (username d s) s.rooms && not (is_empty (username d s))))
  unfolding send_room_message
  send_room_message-reaches v c d name room message id store k full text inside saved =
      let all = (members_for_message-members room name (username d s) s.rooms).1 in
      (
        rw (k, full) (room_message_from-saved c name room message id store text inside saved),
        find_many-reaches s v d (members_for_message room name s.rooms).0 ∙ ground (arith, all),
      )

find_many-missing :
    (m : UserManager) (name : Text) → find name m.users ≡ none → find_many (name ∷ []) m ≡ []
unfolding find_many
find_many-missing m name h = rw (h, find_many) refl

find_many-found :
    (m : UserManager) (name : Text) (d : Connection)
    → find name m.users ≡ some d
    → find_many (name ∷ []) m ≡ d ∷ []
unfolding find_many
find_many-found m name d h = rw (h, find_many) refl

-- What the sender of a private message is told once it is stored.
abbrev pub private_outcome : Option Connection → Text
private_outcome none = codes "private message saved"
private_outcome (some d) = codes "private message sent"

-- The server after a private message was stored, sent to each connection of the list, and answered.
abbrev pub told_target :
    {St : Type 0} → Connection → Text → Text → Text → ℕ → ℕ → St → ChatServer St → ChatServer St
told_target c from target message id now store s = record s {
  store = store;
  sent =
      (s.sent
        ++ map (λ e. (e, make_json_line (private_event from message id now)))
            (find_many (target ∷ []) s.users))
      ++ (
        c,
        make_json_line (private_answer (private_outcome (find_user target s.users)) target id now),
      )
        ∷ [];
}

module _ {St : Type 0} (db : Storage St) (now : ℕ) (s : ChatServer St) where
  private_from-saved :
      (c : Connection) (from target message : Text) (id : ℕ) (store : St)
      → is_valid_name target ≡ true
      → is_empty message ≡ false
      → db.save_private_message from target message now s.store ≡ (some id, store)
      → private_from db now c from target message s
        ≡ told_target c from target message id now store s
  unfolding private_from stored_private deliver_private find_user
  private_from-saved c from target message id store valid text saved =
      rw (valid, text)
        (ap (λ z. stored_private c from target message now z s) saved
          ∙ elim (Option-cases (find target s.users.users)) [
            | inl h ↦
                rw (find_many-missing s.users target h, h)
                  (ap
                    (λ l. record s {
                      store = store;
                      sent =
                          l
                          ++ (
                            c,
                            make_json_line (private_answer (private_outcome none) target id now),
                          )
                            ∷ [];
                    })
                    (sym (append-nil s.sent)))
            | inr (d, h) ↦ rw (find_many-found s.users target d h, h) refl
          ])

  -- On a server whose parts are in agreement, when a user sends a text that is not empty to a valid
  -- name and the storage keeps the message: the storage is the one that the message was saved in, a
  -- line with the message and its id is sent to each of a list of connections, the sender is told
  -- whether there was one, and nothing else changes; and a connection is in that list exactly if its
  -- session is logged in under the name.
  pub send_private-reaches :
      (v : IsServing s) (c d : Connection) (from target message : Text) (id : ℕ) (store : St)
      → s.sessions c ≡ some from
      → is_empty from ≡ false
      → is_valid_name target ≡ true
      → is_empty message ≡ false
      → db.save_private_message from target message now s.store ≡ (some id, store)
      → (send_private db now c target message s ≡ told_target c from target message id now store s)
        × (reaches d (find_many (target ∷ []) s.users) ≡ text_eq target (username d s))
  unfolding send_private
  send_private-reaches v c d from target message id store k full valid text saved =
      let named = is_valid_name-nonempty target valid in
      (
        rw (k, full) (private_from-saved c from target message id store valid text saved),
        find_many-reaches s v d (target ∷ [])
            ∙ unfold contains in ground (arith, text_eq_iff target (username d s)),
      )
