-- ===== src/CallManager/Lifecycle/States.antt =====
-- `stateForUser` after each change that server/CallManager.cc makes.
use chat_service.Base.{
  Text, none, some, text_eq, find, if◌then◌else◌, ◌≡◌, ◌||◌, inl, inr, arith, find-insert,
  find-erase, Option-cases,
}
use chat_service.CallManager.{
  idle, calling, ringing, in_call, CallRecord, CallManager, state_for_user,
}
use chat_service.CallManager.Invariant.{IsConsistent, started, answered, ended}

pub state-started :
    (m : CallManager) (caller callee id u : Text)
    → state_for_user u (started m caller callee id) ≡ (
        if text_eq callee u
        then ringing
        else if text_eq caller u
        then calling
        else state_for_user u m)
unfolding state_for_user
state-started m caller callee id u = simp find-insert (ground arith)

pub state-answered :
    (m : CallManager) (id : Text) (c : CallRecord) (u : Text)
    → state_for_user u (answered m id c)
      ≡ (if text_eq c.caller u || text_eq c.callee u then in_call else state_for_user u m)
unfolding state_for_user
state-answered m id c u = simp find-insert (ground arith)

pub state-ended :
    (m : CallManager) (id : Text) (c : CallRecord) (u : Text)
    → state_for_user u (ended m id c)
      ≡ (if text_eq c.caller u || text_eq c.callee u then idle else state_for_user u m)
unfolding state_for_user
state-ended m id c u = simp find-erase (ground arith)

-- The states that the two ends of a recorded call are in.
pub states_of_call :
    (m : CallManager) (v : IsConsistent m) (id : Text) (c : CallRecord)
    → find id m.calls ≡ some c
    → (state_for_user c.caller m ≡ (if c.accepted then in_call else calling))
      × (state_for_user c.callee m ≡ (if c.accepted then in_call else ringing))
unfolding state_for_user
states_of_call m v id c h = (rw (v.callers id c h), rw (v.callees id c h))

-- An entry is never idle, so an idle user has none.
pub idle-find :
    (m : CallManager) (v : IsConsistent m) (u : Text)
    → state_for_user u m ≡ idle
    → find u m.users ≡ none
unfolding state_for_user
idle-find m v u h = elim (Option-cases (find u m.users)) [
  | inl e ↦ e
  | inr (s, e) ↦ let (c, found, side) = v.ends u s e in ground arith
]
