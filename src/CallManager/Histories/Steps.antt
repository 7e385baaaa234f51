-- ===== src/CallManager/Histories/Steps.antt =====
-- The operations of server/CallManager.h as data, so that a history is a list of them.
use chat_service.Base.{
  Text, none, some, List, [], ◌∷◌, find, ◌≡◌, ◌≢◌, inl, inr, Bool, true, false, Bool-cases,
  Option-cases, subst, sym,
}
use chat_service.Status.{Status, success}
use chat_service.CallManager.{
  CallManager, CallUserState, CallRecord, calling, ringing, empty, start_call, accept_call,
  reject_call, cancel_call, timeout_call, hangup_call, remove_user, finish_pending_call,
}
use chat_service.CallManager.Invariant.{
  IsConsistent, pending, started, answered, ended, empty-IsConsistent, started-IsConsistent,
  answered-IsConsistent, ended-IsConsistent,
}
use chat_service.CallManager.Guards.{
  accepts, finishes, talks, accepts_iff, cancels_iff, rejects_iff, talks_iff,
}
use chat_service.CallManager.Lifecycle.Effects.{
  accept_call-pending, accept_call-failure, finish-pending, finish-failure, hangup_call-active,
  hangup_call-failure, remove_user-end, remove_user-idle, start_call-fresh, start_call-caller_busy,
  start_call-target_busy, start_call-duplicate,
}

pub data CallOp : Type 0 where
  start accept reject cancel timeout hangup : Text → Text → Text → CallOp
  remove : Text → CallOp

unfoldable pub perform : CallOp → CallManager → CallManager × Status
perform (start caller callee id) m = start_call caller callee id m
perform (accept callee caller id) m = accept_call callee caller id m
perform (reject callee caller id) m = reject_call callee caller id m
perform (cancel caller callee id) m = cancel_call caller callee id m
perform (timeout caller callee id) m = timeout_call caller callee id m
perform (hangup u p id) m = hangup_call u p id m
perform (remove u) m = ((remove_user u m).0, success)

unfoldable pub run : CallManager → List CallOp → CallManager
unfolding perform
run m [] = m
run m (op ∷ ops) = run (perform op m).0 ops

-- The server starts no call from a user to the same user (`cannot_call_self`).
abbrev pub IsAllowed : CallOp → Type 0
IsAllowed (start caller callee id) = caller ≢ callee
IsAllowed _ = Unit {0}

abbrev pub AllAllowed : List CallOp → Type 0
AllAllowed [] = Unit {0}
AllAllowed (op ∷ ops) = IsAllowed op × AllAllowed ops

-- The changes that an operation other than a start can make.
pub data Shift (m : CallManager) : CallManager → Type 0 where
  none_made : Shift m m
  answers :
      (caller callee id : Text)
      → find id m.calls ≡ some (pending caller callee)
      → Shift m (answered m id (pending caller callee))
  ends : (id : Text) (c : CallRecord) → find id m.calls ≡ some c → Shift m (ended m id c)

-- The changes that an operation can make.
pub data Change (m : CallManager) : CallManager → Type 0 where
  shifts : {n : CallManager} → Shift m n → Change m n
  begins :
      (caller callee id : Text)
      → caller ≢ callee
      → find caller m.users ≡ none
      → find callee m.users ≡ none
      → find id m.calls ≡ none
      → Change m (started m caller callee id)

pub Shift-IsConsistent : {m n : CallManager} → IsConsistent m → Shift m n → IsConsistent n
Shift-IsConsistent v none_made = v
Shift-IsConsistent {m} v (answers caller callee id h) = answered-IsConsistent m v id _ h
Shift-IsConsistent {m} v (ends id c h) = ended-IsConsistent m v id c h

pub Change-IsConsistent : {m n : CallManager} → IsConsistent m → Change m n → IsConsistent n
Change-IsConsistent v (shifts h) = Shift-IsConsistent v h
Change-IsConsistent {m} v (begins caller callee id ne h k l) =
    started-IsConsistent m v caller callee id ne h k l

pub start-Change :
    (m : CallManager) (caller callee id : Text)
    → caller ≢ callee
    → Change m (start_call caller callee id m).0
start-Change m caller callee id ne = elim (Option-cases (find caller m.users)) [
  | inr (s, e) ↦
      subst (λ r. Change m r.0) (sym (start_call-caller_busy m caller callee id s e))
        (shifts none_made)
  | inl h ↦ elim (Option-cases (find callee m.users)) [
    | inr (s, e) ↦
        subst (λ r. Change m r.0) (sym (start_call-target_busy m caller callee id s h e))
          (shifts none_made)
    | inl k ↦ elim (Option-cases (find id m.calls)) [
      | inr (s, e) ↦
          subst (λ r. Change m r.0) (sym (start_call-duplicate m caller callee id s h k e))
            (shifts none_made)
      | inl l ↦
          subst (λ r. Change m r.0) (sym (start_call-fresh m caller callee id h k l))
            (begins caller callee id ne h k l)
    ]
  ]
]

pub accept-Shift :
    (m : CallManager) (v : IsConsistent m) (callee caller id : Text)
    → Shift m (accept_call callee caller id m).0
accept-Shift m v callee caller id = elim (Bool-cases (accepts m callee caller id)) [
  | inl t ↦
      let h = (accepts_iff m v callee caller id).0 t in
      subst (λ r. Shift m r.0) (sym (accept_call-pending m v callee caller id h))
        (answers caller callee id h)
  | inr f ↦
      subst (λ r. Shift m r.0)
        (sym (
          accept_call-failure m v callee caller id
            (λ h. cc (f, (accepts_iff m v callee caller id).1 h))))
        none_made
]

pub finish-Shift :
    (m : CallManager) (u p id : Text) (c : CallRecord) (x : CallUserState) (as_caller : Bool)
    → (finishes m u p id x as_caller ≡ true → find id m.calls ≡ some c)
    → Shift m (finish_pending_call u p id x as_caller m).0
finish-Shift m u p id c x as_caller known = elim (Bool-cases (finishes m u p id x as_caller)) [
  | inl t ↦
      subst (λ r. Shift m r.0) (sym (finish-pending m u p id c x as_caller t (known t)))
        (ends id c (known t))
  | inr f ↦
      subst (λ r. Shift m r.0) (sym (finish-failure m u p id x as_caller (λ t. cc (f, t))))
        none_made
]

pub hangup-Shift :
    (m : CallManager) (v : IsConsistent m) (u p id : Text) → Shift m (hangup_call u p id m).0
hangup-Shift m v u p id = elim (Bool-cases (talks m u p id)) [
  | inl t ↦ elim ((talks_iff m v u p id).0 t) [
    | inl h ↦ subst (λ r. Shift m r.0) (sym (hangup_call-active m u p id _ t h)) (ends id _ h)
    | inr h ↦ subst (λ r. Shift m r.0) (sym (hangup_call-active m u p id _ t h)) (ends id _ h)
  ]
  | inr f ↦ subst (λ r. Shift m r.0) (sym (hangup_call-failure m u p id (λ t. cc (f, t)))) none_made
]

pub remove-Shift : (m : CallManager) (v : IsConsistent m) (u : Text) → Shift m (remove_user u m).0
remove-Shift m v u = elim (Option-cases (find u m.users)) [
  | inl h ↦ subst (λ r. Shift m r.0) (sym (remove_user-idle m u h)) none_made
  | inr (s, h) ↦
      let (c, found, side) = v.ends u s h in
      subst (λ r. Shift m r.0) (sym (remove_user-end m u s c h found)) (ends s.call_id c found)
]

pub reject-Shift :
    (m : CallManager) (v : IsConsistent m) (callee caller id : Text)
    → Shift m (reject_call callee caller id m).0
unfolding reject_call
reject-Shift m v callee caller id =
    finish-Shift m callee caller id (pending caller callee) ringing false
      (rejects_iff m v callee caller id).0

pub cancel-Shift :
    (m : CallManager) (v : IsConsistent m) (caller callee id : Text)
    → Shift m (cancel_call caller callee id m).0
unfolding cancel_call
cancel-Shift m v caller callee id =
    finish-Shift m caller callee id (pending caller callee) calling true
      (cancels_iff m v caller callee id).0

pub timeout-Shift :
    (m : CallManager) (v : IsConsistent m) (caller callee id : Text)
    → Shift m (timeout_call caller callee id m).0
unfolding timeout_call
timeout-Shift m v caller callee id =
    finish-Shift m caller callee id (pending caller callee) calling true
      (cancels_iff m v caller callee id).0

-- Every operation makes one of these changes.
pub perform-Change :
    (m : CallManager) (v : IsConsistent m) (op : CallOp) → IsAllowed op → Change m (perform op m).0
unfolding perform
perform-Change m v (start caller callee id) ne = start-Change m caller callee id ne
perform-Change m v (accept callee caller id) _ = shifts (accept-Shift m v callee caller id)
perform-Change m v (reject callee caller id) _ = shifts (reject-Shift m v callee caller id)
perform-Change m v (cancel caller callee id) _ = shifts (cancel-Shift m v caller callee id)
perform-Change m v (timeout caller callee id) _ = shifts (timeout-Shift m v caller callee id)
perform-Change m v (hangup u p id) _ = shifts (hangup-Shift m v u p id)
perform-Change m v (remove u) _ = shifts (remove-Shift m v u)

run_from-IsConsistent :
    (m : CallManager) (ops : List CallOp)
    → IsConsistent m
    → AllAllowed ops
    → IsConsistent (run m ops)
unfolding run
run_from-IsConsistent m [] v a = v
run_from-IsConsistent m (op ∷ ops) v a =
    run_from-IsConsistent (perform op m).0 ops (Change-IsConsistent v (perform-Change m v op a.0))
      a.1

-- From the empty manager, whatever operations follow, provided that no call is started from a user
-- to the same user: every recorded call has two different ends, each end has the one entry that says
-- so, and every entry belongs to a recorded call.
pub run-IsConsistent : (ops : List CallOp) → AllAllowed ops → IsConsistent (run empty ops)
run-IsConsistent ops a = run_from-IsConsistent empty ops empty-IsConsistent a
