-- ===== src/Server/Races/Halves.antt =====
-- The two halves of `ChatServer::logout`, and the way of an invitation through
-- `ChatServer::handleCallRequest`, server/ChatServer.cc.
use chat_service.Base.{
  Text, true, false, [], Option, none, some, find, is_empty, codes, text_eq, text_eq_iff,
  text_eq_refl, find-erase, insert, ==_iff, ◌≡◌, refl, ◌∙◌, arith, Option-cases, inl, inr,
}
use chat_service.CallManager.{CallDisconnectEvent, remove_user, start_call}
use chat_service.CallManager.Invariant.{started}
use chat_service.CallManager.Lifecycle.Effects.{start_call-fresh}
use chat_service.Json.{JsonObject}
use chat_service.Names.{is_valid_name, is_valid_call_id}
use chat_service.Protocol.{field_or_empty}
use chat_service.RoomManager.{leave_all}
use chat_service.Server.Accounts.{tell_peer, log_out_user}
use chat_service.Server.Calls.{handle_call_request, checked_request, call_request, invite, invited}
use chat_service.Server.State.{ChatServer, set_username, when_logged_in}
use chat_service.UserManager
use chat_service.UserManager.{Connection, find_user}

-- A request to call `b`, as a client makes it.
pub record IsInvitation (r : JsonObject) (b id : Text) : Type 0 where
  pub type : field_or_empty r (codes "type") ≡ codes "call_invite"
  pub to : field_or_empty r (codes "to") ≡ b
  pub call_id : field_or_empty r (codes "call_id") ≡ id
  pub media : field_or_empty r (codes "media") ≡ codes "video"
  pub valid_name : is_valid_name b ≡ true
  pub valid_id : is_valid_call_id id ≡ true

module _ {St : Type 0} where
  -- The logout of a session up to the message to the other end of its call.
  unfoldable pub leave_call : Text → ChatServer St → ChatServer St
  unfolding tell_peer
  leave_call name s =
      tell_peer name (remove_user name s.calls).1
        (record s { calls = (remove_user name s.calls).0 })

  -- The rest of it.
  unfoldable pub leave_rest : Connection → Text → ChatServer St → ChatServer St
  leave_rest c name s =
      set_username c []
        (record s { rooms = leave_all name s.rooms; users = UserManager.logout name c s.users })

  -- The two halves are the logout.
  pub leave_rest-leave_call :
      (c : Connection) (name : Text) (s : ChatServer St)
      → leave_rest c name (leave_call name s) ≡ log_out_user c name s
  unfolding leave_rest leave_call log_out_user
  leave_rest-leave_call c name s = refl

  tell_peer-keeps :
      (name : Text) (e : Option CallDisconnectEvent) (s : ChatServer St)
      → ((tell_peer name e s).users ≡ s.users)
        × ((tell_peer name e s).calls ≡ s.calls)
        × ((tell_peer name e s).sessions ≡ s.sessions)
  unfolding tell_peer
  tell_peer-keeps name none s = (refl, refl, refl)
  tell_peer-keeps name (some event) s = elim (Option-cases (find_user event.peer s.users)) [
    | inl k ↦ rw k (refl, refl, refl)
    | inr (d, k) ↦ rw k (refl, refl, refl)
  ]

  -- The way of an invitation through the checks.
  when_logged_in-name :
      (c : Connection) (a : Text) (s : ChatServer St) (rest : Text → ChatServer St)
      → s.sessions c ≡ some a
      → is_empty a ≡ false
      → when_logged_in c s rest ≡ rest a
  when_logged_in-name c a s rest here full = rw (here, full) refl

  read-request :
      (c : Connection) (a : Text) (r : JsonObject) (s : ChatServer St)
      → s.sessions c ≡ some a
      → is_empty a ≡ false
      → handle_call_request c r s
        ≡ checked_request c
            (field_or_empty r (codes "type"))
            a
            (field_or_empty r (codes "to"))
            (field_or_empty r (codes "call_id"))
            r
            s
  unfolding handle_call_request
  read-request c a r s here full =
      when_logged_in-name c a s
        (λ name.
          checked_request c (field_or_empty r (codes "type")) name (field_or_empty r (codes "to"))
            (field_or_empty r (codes "call_id")) r s)
        here full

  checked-invite :
      (c : Connection) (a b id : Text) (r : JsonObject) (s : ChatServer St)
      → is_valid_name b ≡ true
      → is_valid_call_id id ≡ true
      → text_eq b a ≡ false
      → checked_request c (codes "call_invite") a b id r s ≡ invite c a b id r s
  unfolding checked_request call_request
  checked-invite c a b id r s vb vi other =
      rw (vb, vi, other, text_eq_refl (codes "call_invite")) refl

  pub request-invite :
      (c : Connection) (a b id : Text) (r : JsonObject) (s : ChatServer St)
      → IsInvitation r b id
      → s.sessions c ≡ some a
      → is_empty a ≡ false
      → text_eq b a ≡ false
      → handle_call_request c r s ≡ invite c a b id r s
  request-invite c a b id r s i here full other =
      read-request c a r s here full
      ∙ rw (i.type, i.to, i.call_id) (checked-invite c a b id r s i.valid_name i.valid_id other)

  pub invite-invited :
      (c d : Connection) (a b id : Text) (r : JsonObject) (s : ChatServer St)
      → field_or_empty r (codes "media") ≡ codes "video"
      → find_user b s.users ≡ some d
      → invite c a b id r s ≡ invited c a b id (start_call a b id s.calls) s
  unfolding invite
  invite-invited c d a b id r s media on = rw (media, text_eq_refl (codes "video"), on) refl

  -- An invitation of a user who is online, between two users without a call.
  pub invited-started :
      (c d : Connection) (a b id : Text) (s : ChatServer St)
      → find_user b s.users ≡ some d
      → find a s.calls.users ≡ none
      → find b s.calls.users ≡ none
      → find id s.calls.calls ≡ none
      → ((invited c a b id (start_call a b id s.calls) s).calls ≡ started s.calls a b id)
        × ((invited c a b id (start_call a b id s.calls) s).users ≡ s.users)
  unfolding invited insert
  invited-started c d a b id s on h k l =
      rw (start_call-fresh s.calls a b id h k l) (rw (on, invited) (refl, refl))

  -- The first half of a logout leaves everybody online, and its user without a call.
  pub leave_call-parts :
      (b : Text) (s : ChatServer St)
      → ((leave_call b s).users ≡ s.users)
        × ((leave_call b s).calls ≡ (remove_user b s.calls).0)
        × ((leave_call b s).sessions ≡ s.sessions)
  unfolding leave_call
  leave_call-parts b s =
      tell_peer-keeps b (remove_user b s.calls).1 (record s { calls = (remove_user b s.calls).0 })

  -- The second half ends with its user offline.
  pub leave_rest-offline :
      (d : Connection) (b : Text) (s : ChatServer St)
      → find_user b s.users ≡ some d
      → find_user b (leave_rest d b s).users ≡ none
  unfolding leave_rest find_user UserManager.logout
  leave_rest-offline d b s on =
      ground (arith, ==_iff d d, find-erase b b s.users.users, text_eq_iff b b)
