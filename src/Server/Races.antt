-- ===== src/Server/Races.antt =====
-- A logout that another connection's thread overtakes: `ChatServer::logout` and
-- `ChatServer::handleCallRequest` of server/ChatServer.cc run on different threads if their connections
-- do, and only the single calls of the managers exclude one another.
pub mod Halves
pub use Halves.*
unfoldable pub use Halves.{leave_call, leave_rest}
use chat_service.Base.{
  Text, true, false, [], Option, none, some, find, is_empty, codes, text_eq, text_eq_iff,
  text_eq_refl, find-erase, insert, subst, ==_iff, ◌≡◌, refl, sym, ap, ◌∙◌, arith, Option-cases,
  inl, inr,
}
use chat_service.CallManager.{
  CallManager, CallDisconnectEvent, idle, ringing, calling, erase_call, remove_user, start_call,
  state_for_user,
}
use chat_service.CallManager.Histories.Steps.{remove-Shift}
use chat_service.CallManager.Histories.Users.{Shift-has, remove_user-gone}
use chat_service.CallManager.Invariant.{IsConsistent, started}
use chat_service.CallManager.Lifecycle.Effects.{start_call-fresh}
use chat_service.CallManager.Lifecycle.States.{state-started, idle-find}
use chat_service.Json.{JsonObject}
use chat_service.Names.{is_valid_name, is_valid_call_id}
use chat_service.Protocol.{field_or_empty}
use chat_service.RoomManager.{leave_all}
use chat_service.Server.Accounts.{tell_peer, log_out_user}
use chat_service.Server.Calls.{handle_call_request, checked_request, call_request, invite, invited}
use chat_service.Server.Invariant.Serving.{IsServing}
use chat_service.Server.State.{ChatServer, set_username, when_logged_in}
use chat_service.UserManager
use chat_service.UserManager.{Connection, find_user}

removed-free :
    (m : CallManager) (b id : Text)
    → find id m.calls ≡ none
    → find id (remove_user b m).0.calls ≡ none
unfolding remove_user erase_call
removed-free m b id h = elim (Option-cases (find b m.users)) [
  | inl e ↦ ground (arith, e)
  | inr (u, e) ↦ elim (Option-cases (find u.call_id m.calls)) [
    | inl k ↦ ground (arith, e, k)
    | inr (r, k) ↦ ground (arith, e, k, find-erase u.call_id id m.calls)
  ]
]

unset_free :
    (m : CallManager) (b a : Text)
    → IsConsistent m
    → find a m.users ≡ none
    → find a (remove_user b m).0.users ≡ none
unset_free m b a v h = elim (Option-cases (find a (remove_user b m).0.users)) [
  | inl e ↦ e
  | inr (u, e) ↦ ground (arith, Shift-has v a (remove-Shift m v b))
]

handled :
    {St : Type 0} (c d : Connection) (a b id : Text) (r : JsonObject) (s : ChatServer St)
    → s.sessions c ≡ some a
    → is_empty a ≡ false
    → text_eq b a ≡ false
    → find_user b s.users ≡ some d
    → find a s.calls.users ≡ none
    → find b s.calls.users ≡ none
    → find id s.calls.calls ≡ none
    → IsInvitation r b id
    → ((handle_call_request c r s).calls ≡ started s.calls a b id)
      × ((handle_call_request c r s).users ≡ s.users)
handled c d a b id r s here full other on h k l i =
    subst (λ t. (t.calls ≡ started s.calls a b id) × (t.users ≡ s.users))
      (sym
        (request-invite c a b id r s i here full other ∙ invite-invited c d a b id r s i.media on))
      (invited-started c d a b id s on h k l)

gone-find :
    (m : CallManager) (v : IsConsistent m) (b : Text) → find b (remove_user b m).0.users ≡ none
gone-find m v b = elim (Option-cases (find b (remove_user b m).0.users)) [
  | inl e ↦ e
  | inr (u, e) ↦ ground (arith, remove_user-gone m v b)
]

leave_rest-calls :
    {St : Type 0} (d : Connection) (b : Text) (s : ChatServer St)
    → (leave_rest d b s).calls ≡ s.calls
unfolding leave_rest
leave_rest-calls d b s = refl

rung :
    (m : CallManager) (a b id : Text)
    → text_eq b a ≡ false
    → (state_for_user b (started m a b id) ≡ ringing)
      × (state_for_user a (started m a b id) ≡ calling)
rung m a b id other = (
  rw (state-started m a b id b, text_eq_refl b) refl,
  rw (state-started m a b id a, other, text_eq_refl a) refl,
)

-- `a` and `b` are the logged in users of two connections, `a` is in no call, and `b` logs out. If the
-- invitation of `b` by `a` under a new id is handled after the removal of the calls of `b` and before
-- the removal of `b` from the users, the invitation is accepted, and after the logout `b` is offline and
-- the calls still hold `b` as rung and `a` as calling.
pub overtaken-logout :
    {St : Type 0} (s : ChatServer St)
    → IsServing s
    → (c d : Connection) (a b id : Text) (r : JsonObject) → s.sessions c ≡ some a
    → is_empty a ≡ false
    → s.sessions d ≡ some b
    → is_empty b ≡ false
    → text_eq b a ≡ false
    → state_for_user a s.calls ≡ idle
    → find id s.calls.calls ≡ none
    → IsInvitation r b id
    → let t = leave_rest d b (handle_call_request c r (leave_call b s)) in
      (find_user b t.users ≡ none)
      × (state_for_user b t.calls ≡ ringing)
      × (state_for_user a t.calls ≡ calling)
unfolding find_user
overtaken-logout s v c d a b id r here full there filled other free new i =
    let (same, ended, names) = leave_call-parts b s in
    let m = s.calls in
    let t = leave_call b s in
    let (made, kept) =
      handled c d a b id r t (ap (λ f. f c) names ∙ here) full other
        (ap (find_user b) same ∙ v.at.logged_in d b there filled)
        (ap (λ n. find a n.users) ended
          ∙ unset_free m b a v.at.calls_agree (idle-find m v.at.calls_agree a free))
        (ap (λ n. find b n.users) ended ∙ gone-find m v.at.calls_agree b)
        (ap (λ n. find id n.calls) ended ∙ removed-free m b id new) i in
    let result = leave_rest-calls d b (handle_call_request c r t) ∙ made in
    let (rings, calls) = rung t.calls a b id other in
    (
      leave_rest-offline d b (handle_call_request c r t)
          (ap (find_user b) kept ∙ ap (find_user b) same ∙ v.at.logged_in d b there filled),
      ap (state_for_user b) result ∙ rings,
      ap (state_for_user a) result ∙ calls,
    )
