-- ===== src/CallManager/Lifecycle/Effects.antt =====
-- The states in which the operations of server/CallManager.cc leave a consistent manager.
use chat_service.Base.{
  Text, Bool, true, none, some, codes, find, ◌≡◌, ◌≢◌, sym, arith, find-insert_ne,
}
use chat_service.Status.{success, failure}
use chat_service.CallManager.{
  CallUserState, UserCall, CallRecord, CallDisconnectEvent, CallManager, start_call, accept_call,
  hangup_call, erase_call, set_in_call, set_accepted, finish_pending_call, remove_user,
}
use chat_service.CallManager.Invariant.{
  IsConsistent, pending, callee_entry, started, ended, answered, answer,
}
use chat_service.CallManager.Guards.{finishes, talks, accepts_iff}

pub erase_call_lem :
    (m : CallManager) (id : Text) (c : CallRecord)
    → find id m.calls ≡ some c
    → erase_call id m ≡ ended m id c
unfolding erase_call
erase_call_lem m id c h = ground arith

pub accept_call-pending :
    (m : CallManager) (v : IsConsistent m) (callee caller id : Text)
    → find id m.calls ≡ some (pending caller callee)
    → accept_call callee caller id m ≡ (answered m id (pending caller callee), success)
unfolding accept_call set_in_call set_accepted
accept_call-pending m v callee caller id h =
    let c = pending caller callee in
    ground (
      arith,
      (accepts_iff m v callee caller id).1 h,
      v.callers id c h,
      v.callees id c h,
      find-insert_ne callee caller (callee_entry id (answer c)) m.users
          (λ e. v.distinct id c h (sym e)),
    )

pub accept_call-failure :
    (m : CallManager) (v : IsConsistent m) (callee caller id : Text)
    → find id m.calls ≢ some (pending caller callee)
    → accept_call callee caller id m ≡ (m, failure (codes "invalid_pending_call"))
unfolding accept_call
accept_call-failure m v callee caller id h = ground (arith, (accepts_iff m v callee caller id).0)

pub finish-pending :
    (m : CallManager) (u p id : Text) (c : CallRecord) (x : CallUserState) (as_caller : Bool)
    → finishes m u p id x as_caller ≡ true
    → find id m.calls ≡ some c
    → finish_pending_call u p id x as_caller m ≡ (ended m id c, success)
unfolding finish_pending_call
finish-pending m u p id c x as_caller t h = ground (arith, erase_call_lem m id c h)

pub finish-failure :
    (m : CallManager) (u p id : Text) (x : CallUserState) (as_caller : Bool)
    → finishes m u p id x as_caller ≢ true
    → finish_pending_call u p id x as_caller m ≡ (m, failure (codes "invalid_pending_call"))
unfolding finish_pending_call
finish-failure m u p id x as_caller t = ground arith

pub hangup_call-active :
    (m : CallManager) (u p id : Text) (c : CallRecord)
    → talks m u p id ≡ true
    → find id m.calls ≡ some c
    → hangup_call u p id m ≡ (ended m id c, success)
unfolding hangup_call
hangup_call-active m u p id c t h = ground (arith, erase_call_lem m id c h)

pub hangup_call-failure :
    (m : CallManager) (u p id : Text)
    → talks m u p id ≢ true
    → hangup_call u p id m ≡ (m, failure (codes "invalid_active_call"))
unfolding hangup_call
hangup_call-failure m u p id t = ground arith

abbrev pub disconnected : UserCall → CallDisconnectEvent
disconnected s = record { call_id = s.call_id; peer = s.peer; disconnected_state = s.state }

pub remove_user-end :
    (m : CallManager) (u : Text) (s : UserCall) (c : CallRecord)
    → find u m.users ≡ some s
    → find s.call_id m.calls ≡ some c
    → remove_user u m ≡ (ended m s.call_id c, some (disconnected s))
unfolding remove_user
remove_user-end m u s c hu hc = ground (arith, erase_call_lem m s.call_id c hc)

pub remove_user-idle :
    (m : CallManager) (u : Text) → find u m.users ≡ none → remove_user u m ≡ (m, none)
unfolding remove_user
remove_user-idle m u h = ground arith

pub start_call-fresh :
    (m : CallManager) (caller callee id : Text)
    → find caller m.users ≡ none
    → find callee m.users ≡ none
    → find id m.calls ≡ none
    → start_call caller callee id m ≡ (started m caller callee id, success)
unfolding start_call
start_call-fresh m caller callee id h k l = ground arith

-- The three reasons for which a start is refused, in the order of the tests.
pub start_call-caller_busy :
    (m : CallManager) (caller callee id : Text) (s : UserCall)
    → find caller m.users ≡ some s
    → start_call caller callee id m ≡ (m, failure (codes "caller_busy"))
unfolding start_call
start_call-caller_busy m caller callee id s h = ground arith

pub start_call-target_busy :
    (m : CallManager) (caller callee id : Text) (s : UserCall)
    → find caller m.users ≡ none
    → find callee m.users ≡ some s
    → start_call caller callee id m ≡ (m, failure (codes "target_busy"))
unfolding start_call
start_call-target_busy m caller callee id s h k = ground arith

pub start_call-duplicate :
    (m : CallManager) (caller callee id : Text) (c : CallRecord)
    → find caller m.users ≡ none
    → find callee m.users ≡ none
    → find id m.calls ≡ some c
    → start_call caller callee id m ≡ (m, failure (codes "duplicate_call_id"))
unfolding start_call
start_call-duplicate m caller callee id c h k l = ground arith
