-- ===== src/CallManager/Invariant.antt =====
-- The two maps of the call manager describe the same calls: server/CallManager.cc.
pub mod Shape
pub use Shape.*
use chat_service.Base.{
  Text, true, false, none, some, text_eq_iff, find, insert, erase, find-insert, find-insert_self,
  find-insert_ne, find-insert_cases, find-erase_ne, find-erase_cases, keys_differ, ◌∙◌,
  if◌then◌else◌, ◌≡◌, ◌≢◌, ◌⊎◌, inl, inr, refl, sym, arith,
}
use chat_service.CallManager.{
  calling, ringing, in_call, UserCall, CallRecord, CallManager, entry, empty,
}

-- The entry of a user who is one of the two ends of `c`.
abbrev pub IsEnd : Text → CallRecord → Type 0
IsEnd u c = (u ≡ c.caller) ⊎ (u ≡ c.callee)

-- Two calls have no user in common.
ends_apart :
    (m : CallManager) (v : IsConsistent m) (i j : Text) (c d : CallRecord) (u w : Text)
    → i ≢ j
    → find i m.calls ≡ some c
    → find j m.calls ≡ some d
    → IsEnd u c
    → IsEnd w d
    → u ≢ w
ends_apart m v i j c d u w ne hc hd eu ew e =
    ground (arith, v.callers i c, v.callees i c, v.callers j d, v.callees j d)

-- A user who is an end of the call `i` has an entry with that call's id, and only such a user.
end-of-call :
    (m : CallManager) (v : IsConsistent m) (i : Text) (c : CallRecord) (u : Text) (s : UserCall)
    → find i m.calls ≡ some c
    → find u m.users ≡ some s
    → ¬ IsEnd u c
    → i ≢ s.call_id
end-of-call m v i c u s hc hu not_end e = let (d, found, e_end) = v.ends u s hu in ground arith

-- The call `i` ends: both of its users become idle and its record goes.
module _ (m : CallManager) (v : IsConsistent m) (i : Text) (c : CallRecord)
    (here : find i m.calls ≡ some c) where
  kept_user :
      (j : Text) (d : CallRecord) (w : Text)
      → i ≢ j
      → find j m.calls ≡ some d
      → IsEnd w d
      → find w (ended m i c).users ≡ find w m.users
  kept_user j d w ne hd ew =
      find-erase_ne c.callee w _ (ends_apart m v i j c d c.callee w ne here hd (inr refl) ew)
      ∙ find-erase_ne c.caller w _ (ends_apart m v i j c d c.caller w ne here hd (inl refl) ew)

  ended-ends :
      (u : Text) (s : UserCall)
      → find u (ended m i c).users ≡ some s
      → (d : CallRecord) × (find s.call_id (ended m i c).calls ≡ some d) × EndOf u s d
  ended-ends u s h =
      let (not_callee, h') = find-erase_cases c.callee u s _ h in
      let (not_caller, h'') = find-erase_cases c.caller u s _ h' in
      let (d, found, e) = v.ends u s h'' in
      let away = end-of-call m v i c u s here h'' (ground arith) in
      (d, find-erase_ne i s.call_id m.calls away ∙ found, e)

  pub ended-IsConsistent : IsConsistent (ended m i c)
  ended-IsConsistent = record {
    distinct = λ j d h. v.distinct j d (find-erase_cases i j d m.calls h).1;
    callers = λ j d h.
        let (ne, old) = find-erase_cases i j d m.calls h in
        kept_user j d d.caller ne old (inl refl) ∙ v.callers j d old;
    callees = λ j d h.
        let (ne, old) = find-erase_cases i j d m.calls h in
        kept_user j d d.callee ne old (inr refl) ∙ v.callees j d old;
    ends = ended-ends;
  }

-- The call `i` is answered.
module _ (m : CallManager) (v : IsConsistent m) (i : Text) (c : CallRecord)
    (here : find i m.calls ≡ some c) where
  kept_other :
      (j : Text) (d : CallRecord) (w : Text)
      → i ≢ j
      → find j m.calls ≡ some d
      → IsEnd w d
      → find w (answered m i c).users ≡ find w m.users
  kept_other j d w ne hd ew =
      find-insert_ne c.caller w _ _ (ends_apart m v i j c d c.caller w ne here hd (inl refl) ew)
      ∙ find-insert_ne c.callee w _ _ (ends_apart m v i j c d c.callee w ne here hd (inr refl) ew)

  answered-callee : find c.callee (answered m i c).users ≡ some (callee_entry i (answer c))
  answered-callee =
      find-insert_ne c.caller c.callee _ _ (v.distinct i c here)
      ∙ find-insert_self c.callee _ m.users

  answered-callers :
      (j : Text) (d : CallRecord)
      → find j (answered m i c).calls ≡ some d
      → find d.caller (answered m i c).users ≡ some (caller_entry j d)
  answered-callers j d h = elim (find-insert_cases i j (answer c) d m.calls h) [
    | inl (k, e) ↦ rw (← k, ← e) (find-insert_self c.caller _ _)
    | inr (ne, old) ↦ kept_other j d d.caller ne old (inl refl) ∙ v.callers j d old
  ]

  answered-callees :
      (j : Text) (d : CallRecord)
      → find j (answered m i c).calls ≡ some d
      → find d.callee (answered m i c).users ≡ some (callee_entry j d)
  answered-callees j d h = elim (find-insert_cases i j (answer c) d m.calls h) [
    | inl (k, e) ↦ rw (← k, ← e) answered-callee
    | inr (ne, old) ↦ kept_other j d d.callee ne old (inr refl) ∙ v.callees j d old
  ]

  answered-ends :
      (u : Text) (s : UserCall)
      → find u (answered m i c).users ≡ some s
      → (d : CallRecord) × (find s.call_id (answered m i c).calls ≡ some d) × EndOf u s d
  answered-ends u s h = elim (find-insert_cases c.caller u _ s _ h) [
    | inl (k, e) ↦
        (answer c, rw (← e) (find-insert_self i (answer c) m.calls), inl (sym k, rw (← e) refl))
    | inr (not_caller, h') ↦ elim (find-insert_cases c.callee u _ s _ h') [
      | inl (k, e) ↦
          (answer c, rw (← e) (find-insert_self i (answer c) m.calls), inr (sym k, rw (← e) refl))
      | inr (not_callee, h'') ↦
          let (d, found, e) = v.ends u s h'' in
          let away = end-of-call m v i c u s here h'' (ground arith) in
          (d, find-insert_ne i s.call_id (answer c) m.calls away ∙ found, e)
    ]
  ]

  pub answered-IsConsistent : IsConsistent (answered m i c)
  answered-IsConsistent = record {
    distinct =
        λ j d h. ground (arith, find-insert i j (answer c) m.calls, v.distinct j d, v.distinct i c);
    callers = answered-callers;
    callees = answered-callees;
    ends = answered-ends;
  }
