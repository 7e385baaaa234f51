-- ===== src/CallManager.antt =====
-- server/CallManager.h and server/CallManager.cc: the one-to-one calls of the server. Every public
-- method holds the mutex from its first line to its last, so each is one step on the two maps.
pub mod Invariant
pub mod Guards
pub mod Lifecycle
pub mod Histories
use chat_service.Base.{
  Text, TextMap, ℕ, Bool, true, false, not, ◌&&◌, ◌||◌, Option, none, some, List, [], ◌∷◌, codes,
  text_eq, find, insert, erase, has, if◌then◌else◌, ◌≡◌,
}
use chat_service.Status.{Status, success, failure}

pub data CallUserState : Type 0 where
  idle calling ringing in_call : CallUserState

pub record UserCall : Type 0 where
  pub state : CallUserState
  pub call_id : Text
  pub peer : Text

pub record CallRecord : Type 0 where
  pub caller : Text
  pub callee : Text
  pub accepted : Bool

pub record CallDisconnectEvent : Type 0 where
  pub call_id : Text
  pub peer : Text
  pub disconnected_state : CallUserState

pub record CallManager : Type 0 where
  pub users : TextMap UserCall
  pub calls : TextMap CallRecord

abbrev pub empty : CallManager
empty = record { users = []; calls = [] }

-- The comparison of two enumerators.
unfoldable pub same_state : CallUserState → CallUserState → Bool
same_state idle idle = true
same_state calling calling = true
same_state ringing ringing = true
same_state in_call in_call = true
same_state _ _ = false

abbrev pub entry : CallUserState → Text → Text → UserCall
entry s id p = record { state = s; call_id = id; peer = p }

unfoldable pub start_call : Text → Text → Text → CallManager → CallManager × Status
start_call caller callee id m =
    if has caller m.users
    then (m, failure (codes "caller_busy"))
    else if has callee m.users
    then (m, failure (codes "target_busy"))
    else if has id m.calls
    then (m, failure (codes "duplicate_call_id"))
    else (
      record {
        users =
            insert callee (entry ringing id caller)
              (insert caller (entry calling id callee) m.users);
        calls = insert id (record { caller = caller; callee = callee; accepted = false }) m.calls;
      },
      success,
    )

-- The conditions of `acceptCall` on the three entries that it has looked up.
unfoldable pub can_accept :
    Text → Text → Text → Option UserCall → Option UserCall → Option CallRecord → Bool
unfolding same_state
can_accept callee caller id (some ce) (some cr) (some c) =
    same_state ce.state ringing
    && same_state cr.state calling
    && text_eq ce.call_id id
    && text_eq cr.call_id id
    && text_eq ce.peer caller
    && text_eq cr.peer callee
    && text_eq c.caller caller
    && text_eq c.callee callee
    && not c.accepted
can_accept callee caller id _ _ _ = false

-- Writing through the iterator of an entry.
unfoldable pub set_in_call : Text → TextMap UserCall → TextMap UserCall
set_in_call u users = elim (find u users) [
  | none ↦ users
  | some s ↦ insert u (record s { state = in_call }) users
]

unfoldable pub set_accepted : Text → TextMap CallRecord → TextMap CallRecord
set_accepted id calls = elim (find id calls) [
  | none ↦ calls
  | some c ↦ insert id (record c { accepted = true }) calls
]

unfoldable pub accept_call : Text → Text → Text → CallManager → CallManager × Status
unfolding can_accept set_in_call set_accepted
accept_call callee caller id m =
    if can_accept callee caller id (find callee m.users) (find caller m.users) (find id m.calls)
    then (
      record {
        users = set_in_call caller (set_in_call callee m.users);
        calls = set_accepted id m.calls;
      },
      success,
    )
    else (m, failure (codes "invalid_pending_call"))

-- `eraseCallLocked`
unfoldable pub erase_call : Text → CallManager → CallManager
erase_call id m = elim (find id m.calls) [
  | none ↦ m
  | some c ↦ record { users = erase c.callee (erase c.caller m.users); calls = erase id m.calls }
]

-- The conditions of `finishPendingCall`.
unfoldable pub can_finish :
    Text
    → Text
    → Text
    → CallUserState
    → Bool
    → Option UserCall
    → Option UserCall
    → Option CallRecord
    → Bool
unfolding same_state
can_finish username peer id expected expect_caller (some u) (some p) (some c) =
    same_state u.state expected
    && text_eq u.call_id id
    && text_eq p.call_id id
    && text_eq u.peer peer
    && text_eq p.peer username
    && not c.accepted
    && not (expect_caller && not (text_eq c.caller username))
    && not (not expect_caller && not (text_eq c.callee username))
can_finish username peer id expected expect_caller _ _ _ = false

unfoldable pub finish_pending_call :
    Text → Text → Text → CallUserState → Bool → CallManager → CallManager × Status
unfolding can_finish erase_call
finish_pending_call username peer id expected expect_caller m =
    if can_finish username peer id expected expect_caller (find username m.users)
      (find peer m.users) (find id m.calls)
    then (erase_call id m, success)
    else (m, failure (codes "invalid_pending_call"))

unfoldable pub reject_call : Text → Text → Text → CallManager → CallManager × Status
unfolding finish_pending_call
reject_call callee caller id m = finish_pending_call callee caller id ringing false m

unfoldable pub cancel_call : Text → Text → Text → CallManager → CallManager × Status
unfolding finish_pending_call
cancel_call caller callee id m = finish_pending_call caller callee id calling true m

unfoldable pub timeout_call : Text → Text → Text → CallManager → CallManager × Status
unfolding finish_pending_call
timeout_call caller callee id m = finish_pending_call caller callee id calling true m

-- The conditions that `hangupCall` and `validateSignaling` share.
unfoldable pub is_active :
    Text → Text → Text → Option UserCall → Option UserCall → Option CallRecord → Bool
unfolding same_state
is_active username peer id (some u) (some p) (some c) =
    same_state u.state in_call
    && same_state p.state in_call
    && text_eq u.call_id id
    && text_eq p.call_id id
    && text_eq u.peer peer
    && text_eq p.peer username
    && c.accepted
is_active username peer id _ _ _ = false

unfoldable pub hangup_call : Text → Text → Text → CallManager → CallManager × Status
unfolding is_active erase_call
hangup_call username peer id m =
    if is_active username peer id (find username m.users) (find peer m.users) (find id m.calls)
    then (erase_call id m, success)
    else (m, failure (codes "invalid_active_call"))

-- The test on the type of a signaling message, once the call is known to be active.
unfoldable pub signaling_role : Text → Text → Option CallRecord → Status
signaling_role username type none = success
signaling_role username type (some c) =
    if text_eq type (codes "webrtc_offer") && not (text_eq c.caller username)
    then failure (codes "only_caller_can_offer")
    else if text_eq type (codes "webrtc_answer") && not (text_eq c.callee username)
    then failure (codes "only_callee_can_answer")
    else success

unfoldable pub validate_signaling : Text → Text → Text → Text → CallManager → Status
unfolding is_active signaling_role
validate_signaling username peer id type m =
    if is_active username peer id (find username m.users) (find peer m.users) (find id m.calls)
    then signaling_role username type (find id m.calls)
    else failure (codes "not_in_same_active_call")

-- `none` is `false`, with the event not written.
unfoldable pub remove_user : Text → CallManager → CallManager × Option CallDisconnectEvent
unfolding erase_call
remove_user username m = elim (find username m.users) [
  | none ↦ (m, none)
  | some u ↦ (
    erase_call u.call_id m,
    some (record { call_id = u.call_id; peer = u.peer; disconnected_state = u.state }),
  )
]

state_of : Option UserCall → CallUserState
state_of none = idle
state_of (some u) = u.state

unfoldable pub state_for_user : Text → CallManager → CallUserState
unfolding state_of
state_for_user username m = state_of (find username m.users)
