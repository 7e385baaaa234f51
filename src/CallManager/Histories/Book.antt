-- ===== src/CallManager/Histories/Book.antt =====
-- The call manager of server/CallManager.cc as a book of calls: the map of the users is an index of
-- it, and every operation decides and acts by the book alone.
use chat_service.Base.{
  Text, Option, none, some, find, ◌≡◌, ◌≢◌, ◌⊎◌, inl, inr, refl, arith, Bool, true, false,
  Bool-cases, Option-cases, subst, sym, text_eq, if◌then◌else◌, find-insert, find-erase,
}
use chat_service.Status.{Status, success, failure}
use chat_service.CallManager.{
  CallManager, CallUserState, UserCall, CallRecord, calling, ringing, start_call, accept_call,
  reject_call, cancel_call, timeout_call, hangup_call, remove_user, finish_pending_call,
}
use chat_service.CallManager.Invariant.{IsConsistent, IsEnd, pending}
use chat_service.CallManager.Guards.{
  accepts as accepts_now, finishes, talks, accepts_iff, cancels_iff, rejects_iff, talks_iff, active,
}
use chat_service.CallManager.Lifecycle.Effects.{
  accept_call-pending, accept_call-failure, finish-pending, finish-failure, hangup_call-active,
  hangup_call-failure, remove_user-end, remove_user-idle, start_call-fresh, start_call-caller_busy,
  start_call-target_busy, start_call-duplicate,
}
use chat_service.CallManager.Histories.Steps.{
  CallOp, start, accept, reject, cancel, timeout, hangup, remove, perform,
}

abbrev pub Book : Type 0
Book = Text → Option CallRecord

abbrev pub view : CallManager → Book
view m id = find id m.calls

abbrev pub Busy : Text → Book → Type 0
Busy u b = (id : Text) × (c : CallRecord) × (b id ≡ some c) × IsEnd u c

-- `b'` is `b` with the page `id` replaced.
abbrev pub Writes : Book → Text → Option CallRecord → Book → Type 0
Writes b id page b' = (j : Text) → b' j ≡ (if text_eq id j then page else b j)

abbrev pub Same : Book → Book → Type 0
Same b b' = (j : Text) → b' j ≡ b j

-- Dropping a pending call: `reject`, `cancel` and `timeout` differ in who asks.
pub data Drop (b b' : Book) (caller callee id : Text) : Status → Type 0 where
  drops :
      b id ≡ some (pending caller callee) → Writes b id none b' → Drop b b' caller callee id success
  refuses :
      (e : Text)
      → b id ≢ some (pending caller callee)
      → Same b b'
      → Drop b b' caller callee id (failure e)

-- What each operation promises, in terms of the book.
pub data BookStep (b b' : Book) : CallOp → Status → Type 0 where
  starts :
      (caller callee id : Text)
      → ¬ Busy caller b
      → ¬ Busy callee b
      → b id ≡ none
      → Writes b id (some (pending caller callee)) b'
      → BookStep b b' (start caller callee id) success
  refuses_start :
      (caller callee id e : Text)
      → Busy caller b ⊎ Busy callee b ⊎ (b id ≢ none)
      → Same b b'
      → BookStep b b' (start caller callee id) (failure e)
  accepts :
      (callee caller id : Text)
      → b id ≡ some (pending caller callee)
      → Writes b id (some (active caller callee)) b'
      → BookStep b b' (accept callee caller id) success
  refuses_accept :
      (callee caller id e : Text)
      → b id ≢ some (pending caller callee)
      → Same b b'
      → BookStep b b' (accept callee caller id) (failure e)
  rejects :
      (callee caller id : Text) (s : Status)
      → Drop b b' caller callee id s
      → BookStep b b' (reject callee caller id) s
  cancels :
      (caller callee id : Text) (s : Status)
      → Drop b b' caller callee id s
      → BookStep b b' (cancel caller callee id) s
  times_out :
      (caller callee id : Text) (s : Status)
      → Drop b b' caller callee id s
      → BookStep b b' (timeout caller callee id) s
  hangs_up :
      (u p id : Text)
      → (b id ≡ some (active u p)) ⊎ (b id ≡ some (active p u))
      → Writes b id none b'
      → BookStep b b' (hangup u p id) success
  refuses_hangup :
      (u p id e : Text)
      → b id ≢ some (active u p)
      → b id ≢ some (active p u)
      → Same b b'
      → BookStep b b' (hangup u p id) (failure e)
  removes :
      (u id : Text) (c : CallRecord)
      → b id ≡ some c
      → IsEnd u c
      → Writes b id none b'
      → BookStep b b' (remove u) success
  removes_idle : (u : Text) → ¬ Busy u b → Same b b' → BookStep b b' (remove u) success

-- A result that is known as a whole.
abbrev Performs : CallManager → CallOp → CallManager × Status → Type 0
Performs m op r = BookStep (view m) (view r.0) op r.1

module _ (m : CallManager) (v : IsConsistent m) where
  entry-Busy : (u : Text) (s : UserCall) → find u m.users ≡ some s → Busy u (view m)
  entry-Busy u s h = let (c, found, side) = v.ends u s h in (s.call_id, c, found, ground arith)

  no_entry-Busy : (u : Text) → find u m.users ≡ none → ¬ Busy u (view m)
  no_entry-Busy u h (id, c, found, inl e) = cc (v.callers id c found)
  no_entry-Busy u h (id, c, found, inr e) = cc (v.callees id c found)

  start-BookStep :
      (caller callee id : Text)
      → Performs m (start caller callee id) (start_call caller callee id m)
  start-BookStep caller callee id = elim (Option-cases (find caller m.users)) [
    | inr (s, e) ↦
        subst (Performs m (start caller callee id))
          (sym (start_call-caller_busy m caller callee id s e))
          (refuses_start caller callee id _ (inl (entry-Busy caller s e)) (λ j. refl))
    | inl h ↦ elim (Option-cases (find callee m.users)) [
      | inr (s, e) ↦
          subst (Performs m (start caller callee id))
            (sym (start_call-target_busy m caller callee id s h e))
            (refuses_start caller callee id _ (inr (inl (entry-Busy callee s e))) (λ j. refl))
      | inl k ↦ elim (Option-cases (find id m.calls)) [
        | inr (c, e) ↦
            subst (Performs m (start caller callee id))
              (sym (start_call-duplicate m caller callee id c h k e))
              (refuses_start caller callee id _ (inr (inr (λ l. cc (e, l)))) (λ j. refl))
        | inl l ↦
            subst (Performs m (start caller callee id))
              (sym (start_call-fresh m caller callee id h k l))
              (starts caller callee id (no_entry-Busy caller h) (no_entry-Busy callee k) l
                (λ j. find-insert id j _ m.calls))
      ]
    ]
  ]

  accept-BookStep :
      (callee caller id : Text)
      → Performs m (accept callee caller id) (accept_call callee caller id m)
  accept-BookStep callee caller id = elim (Bool-cases (accepts_now m callee caller id)) [
    | inl t ↦
        let h = (accepts_iff m v callee caller id).0 t in
        subst (Performs m (accept callee caller id))
          (sym (accept_call-pending m v callee caller id h))
          (accepts callee caller id h (λ j. find-insert id j _ m.calls))
    | inr f ↦
        let h : find id m.calls ≢ some (pending caller callee) =
          λ h. cc (f, (accepts_iff m v callee caller id).1 h) in
        subst (Performs m (accept callee caller id))
          (sym (accept_call-failure m v callee caller id h))
          (refuses_accept callee caller id _ h (λ j. refl))
  ]

  finish-Drop :
      (u p caller callee id : Text) (x : CallUserState) (as_caller : Bool)
      → (finishes m u p id x as_caller ≡ true → find id m.calls ≡ some (pending caller callee))
      → (find id m.calls ≡ some (pending caller callee) → finishes m u p id x as_caller ≡ true)
      → Drop
          (view m)
          (view (finish_pending_call u p id x as_caller m).0)
          caller
          callee
          id
          (finish_pending_call u p id x as_caller m).1
  finish-Drop u p caller callee id x as_caller to from =
      elim (Bool-cases (finishes m u p id x as_caller)) [
        | inl t ↦
            subst (λ r. Drop (view m) (view r.0) caller callee id r.1)
              (sym (finish-pending m u p id _ x as_caller t (to t)))
              (drops (to t) (λ j. find-erase id j m.calls))
        | inr f ↦
            let f' : finishes m u p id x as_caller ≢ true = λ t. cc (f, t) in
            subst (λ r. Drop (view m) (view r.0) caller callee id r.1)
              (sym (finish-failure m u p id x as_caller f'))
              (refuses _ (λ h. f' (from h)) (λ j. refl))
      ]

  hangup-BookStep : (u p id : Text) → Performs m (hangup u p id) (hangup_call u p id m)
  hangup-BookStep u p id = elim (Bool-cases (talks m u p id)) [
    | inl t ↦
        let side = (talks_iff m v u p id).0 t in
        let (c, h) = page side in
        subst (Performs m (hangup u p id)) (sym (hangup_call-active m u p id c t h))
          (hangs_up u p id side (λ j. find-erase id j m.calls))
    | inr f ↦
        let f' : talks m u p id ≢ true = λ t. cc (f, t) in
        subst (Performs m (hangup u p id)) (sym (hangup_call-failure m u p id f')) (
          refuses_hangup u p id _ (λ h. f' ((talks_iff m v u p id).1 (inl h)))
            (λ h. f' ((talks_iff m v u p id).1 (inr h))) (λ j. refl))
  ]
    where
      page :
          (find id m.calls ≡ some (active u p)) ⊎ (find id m.calls ≡ some (active p u))
          → (c : CallRecord) × (find id m.calls ≡ some c)
      page (inl h) = (active u p, h)
      page (inr h) = (active p u, h)

  remove-BookStep : (u : Text) → BookStep (view m) (view (remove_user u m).0) (remove u) success
  remove-BookStep u = elim (Option-cases (find u m.users)) [
    | inl h ↦
        subst (λ r. BookStep (view m) (view r.0) (remove u) success) (sym (remove_user-idle m u h))
          (removes_idle u (no_entry-Busy u h) (λ j. refl))
    | inr (s, h) ↦
        let (c, found, side) = v.ends u s h in
        subst (λ r. BookStep (view m) (view r.0) (remove u) success)
          (sym (remove_user-end m u s c h found))
          (removes u s.call_id c found (ground arith) (λ j. find-erase s.call_id j m.calls))
  ]

-- On a consistent manager every operation, also one that would start a call from a user to the same
-- user, succeeds exactly when the book of calls alone allows it, changes the one page of the book
-- that it names, and changes none when it is refused.
pub perform-BookStep :
    (m : CallManager) (v : IsConsistent m) (op : CallOp)
    → BookStep (view m) (view (perform op m).0) op (perform op m).1
unfolding perform reject_call cancel_call timeout_call
perform-BookStep m v (start caller callee id) = start-BookStep m v caller callee id
perform-BookStep m v (accept callee caller id) = accept-BookStep m v callee caller id
perform-BookStep m v (reject callee caller id) = rejects callee caller id _ (
    finish-Drop m v callee caller caller callee id ringing false
      (rejects_iff m v callee caller id).0 (rejects_iff m v callee caller id).1)
perform-BookStep m v (cancel caller callee id) = cancels caller callee id _ (
    finish-Drop m v caller callee caller callee id calling true (cancels_iff m v caller callee id).0
      (cancels_iff m v caller callee id).1)
perform-BookStep m v (timeout caller callee id) = times_out caller callee id _ (
    finish-Drop m v caller callee caller callee id calling true (cancels_iff m v caller callee id).0
      (cancels_iff m v caller callee id).1)
perform-BookStep m v (hangup u p id) = hangup-BookStep m v u p id
perform-BookStep m v (remove u) = remove-BookStep m v u
