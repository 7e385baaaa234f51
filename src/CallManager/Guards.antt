-- ===== src/CallManager/Guards.antt =====
-- The conditions of server/CallManager.cc under its invariant: each long test of both user entries
-- and the call's record comes down to what the record says.
use chat_service.Base.{
  Text, Bool, true, false, Option, some, text_eq_iff, text_eq_refl, find, if◌then◌else◌, ◌≡◌, ◌⊎◌,
  ◌↔◌, inl, inr, refl, arith,
}
use chat_service.CallManager.{
  CallUserState, calling, ringing, UserCall, CallRecord, CallManager, can_accept, can_finish,
  is_active,
}
use chat_service.CallManager.Invariant.{IsConsistent, pending, caller_entry, callee_entry}

abbrev pub active : Text → Text → CallRecord
active caller callee = record { caller = caller; callee = callee; accepted = true }

-- What a passed test says of the call's record. Nothing is needed of the user entries.
can_accept-record :
    (callee caller id : Text) (e r : Option UserCall) (o : Option CallRecord)
    → can_accept callee caller id e r o ≡ true
    → o ≡ some (pending caller callee)
unfolding can_accept
can_accept-record callee caller id (some e) (some r) (some c) h =
    ground (arith, text_eq_iff c.caller caller, text_eq_iff c.callee callee)
can_accept-record callee caller id _ _ _ h = cc

can_accept-pending :
    (callee caller id : Text)
    → can_accept callee caller id
        (some (callee_entry id (pending caller callee)))
        (some (caller_entry id (pending caller callee)))
        (some (pending caller callee))
      ≡ true
unfolding can_accept
can_accept-pending callee caller id = simp (text_eq_refl)

-- What a passed test of `finishPendingCall` says of the three entries.
can_finish-entries :
    (u p id : Text) (x : CallUserState) (as_caller : Bool) (e r : Option UserCall)
    (o : Option CallRecord)
    → can_finish u p id x as_caller e r o ≡ true
    → (c : CallRecord) × (o ≡ some c)
      × (c.accepted ≡ false)
      × ((if as_caller then c.caller else c.callee) ≡ u)
      × (s : UserCall) × (e ≡ some s)
      × (s.peer ≡ p)
unfolding can_finish
can_finish-entries u p id x true (some e) (some r) (some c) h = (
  c,
  refl,
  ground arith,
  ground (arith, text_eq_iff c.caller u),
  e,
  refl,
  ground (arith, text_eq_iff e.peer p),
)
can_finish-entries u p id x false (some e) (some r) (some c) h = (
  c,
  refl,
  ground arith,
  ground (arith, text_eq_iff c.callee u),
  e,
  refl,
  ground (arith, text_eq_iff e.peer p),
)
can_finish-entries u p id x as_caller _ _ _ h = cc

can_finish-caller :
    (caller callee id : Text)
    → can_finish caller callee id calling true
        (some (caller_entry id (pending caller callee)))
        (some (callee_entry id (pending caller callee)))
        (some (pending caller callee))
      ≡ true
unfolding can_finish
can_finish-caller caller callee id = simp text_eq_refl

can_finish-callee :
    (callee caller id : Text)
    → can_finish callee caller id ringing false
        (some (callee_entry id (pending caller callee)))
        (some (caller_entry id (pending caller callee)))
        (some (pending caller callee))
      ≡ true
unfolding can_finish
can_finish-callee callee caller id = simp text_eq_refl

is_active-entries :
    (u p id : Text) (e r : Option UserCall) (o : Option CallRecord)
    → is_active u p id e r o ≡ true
    → (c : CallRecord) × (o ≡ some c)
      × (c.accepted ≡ true)
      × (s : UserCall) × (e ≡ some s)
      × (s.peer ≡ p)
      × (s.call_id ≡ id)
unfolding is_active
is_active-entries u p id (some e) (some r) (some c) h = (
  c,
  refl,
  ground arith,
  e,
  refl,
  ground (arith, text_eq_iff e.peer p),
  ground (arith, text_eq_iff e.call_id id),
)
is_active-entries u p id _ _ _ h = cc

is_active-caller :
    (caller callee id : Text)
    → is_active caller callee id
        (some (caller_entry id (active caller callee)))
        (some (callee_entry id (active caller callee)))
        (some (active caller callee))
      ≡ true
unfolding is_active
is_active-caller caller callee id = simp text_eq_refl

is_active-callee :
    (callee caller id : Text)
    → is_active callee caller id
        (some (callee_entry id (active caller callee)))
        (some (caller_entry id (active caller callee)))
        (some (active caller callee))
      ≡ true
unfolding is_active
is_active-callee callee caller id = simp text_eq_refl

-- The tests of the operations, on the entries that they look up.
module _ (m : CallManager) where
  abbrev pub accepts : Text → Text → Text → Bool
  accepts callee caller id =
      can_accept callee caller id (find callee m.users) (find caller m.users) (find id m.calls)

  abbrev pub finishes : Text → Text → Text → CallUserState → Bool → Bool
  finishes u p id x as_caller =
      can_finish u p id x as_caller (find u m.users) (find p m.users) (find id m.calls)

  abbrev pub talks : Text → Text → Text → Bool
  talks u p id = is_active u p id (find u m.users) (find p m.users) (find id m.calls)

module _ (m : CallManager) (v : IsConsistent m) where
  pub accepts_iff :
      (callee caller id : Text)
      → (accepts m callee caller id ≡ true) ↔ (find id m.calls ≡ some (pending caller callee))
  accepts_iff callee caller id = (
    λ h. can_accept-record callee caller id _ _ _ h,
    λ h.
        rw (v.callees id (pending caller callee) h, v.callers id (pending caller callee) h, h)
          (can_accept-pending callee caller id),
  )

  finishes-pending :
      (u p id : Text) (x : CallUserState) (as_caller : Bool)
      → finishes m u p id x as_caller ≡ true
      → find id m.calls ≡ some (if as_caller then pending u p else pending p u)
  finishes-pending u p id x true h =
      let (c, e, a, k, s, f, q) = can_finish-entries u p id x true _ _ _ h in
      ground (arith, v.callers id c)
  finishes-pending u p id x false h =
      let (c, e, a, k, s, f, q) = can_finish-entries u p id x false _ _ _ h in
      ground (arith, v.callees id c)

  pub cancels_iff :
      (caller callee id : Text)
      → (finishes m caller callee id calling true ≡ true)
        ↔ (find id m.calls ≡ some (pending caller callee))
  cancels_iff caller callee id = (
    finishes-pending caller callee id calling true,
    λ h.
        rw (v.callers id (pending caller callee) h, v.callees id (pending caller callee) h, h)
          (can_finish-caller caller callee id),
  )

  pub rejects_iff :
      (callee caller id : Text)
      → (finishes m callee caller id ringing false ≡ true)
        ↔ (find id m.calls ≡ some (pending caller callee))
  rejects_iff callee caller id = (
    finishes-pending callee caller id ringing false,
    λ h.
        rw (v.callees id (pending caller callee) h, v.callers id (pending caller callee) h, h)
          (can_finish-callee callee caller id),
  )

  pub talks_iff :
      (u p id : Text)
      → (talks m u p id ≡ true)
        ↔ ((find id m.calls ≡ some (active u p)) ⊎ (find id m.calls ≡ some (active p u)))
  talks_iff u p id = (sound, complete)
    where
      sound :
          talks m u p id ≡ true
          → (find id m.calls ≡ some (active u p)) ⊎ (find id m.calls ≡ some (active p u))
      sound h =
          let (c, e, a, s, f, q, i) = is_active-entries u p id _ _ _ h in
          let (d, found, side) = v.ends u s f in ground arith

      complete :
          (find id m.calls ≡ some (active u p)) ⊎ (find id m.calls ≡ some (active p u))
          → talks m u p id ≡ true
      complete (inl h) =
          rw (v.callers id (active u p) h, v.callees id (active u p) h, h) (is_active-caller u p id)
      complete (inr h) =
          rw (v.callers id (active p u) h, v.callees id (active p u) h, h) (is_active-callee u p id)
