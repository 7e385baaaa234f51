-- ===== src/CallManager/Invariant/Shape.antt =====
-- The two maps of server/CallManager.cc and how they belong together, with the calls that begin.
use chat_service.Base.{
  Text, true, false, none, some, text_eq_iff, find, insert, erase, find-insert, find-insert_self,
  find-insert_ne, find-insert_cases, keys_differ, ◌∙◌, if◌then◌else◌, ◌≡◌, ◌≢◌, ◌⊎◌, inl, inr, refl,
  sym, arith,
}
use chat_service.CallManager.{
  calling, ringing, in_call, UserCall, CallRecord, CallManager, entry, empty,
}

-- What the user map says of the two ends of a call.
abbrev pub caller_entry : Text → CallRecord → UserCall
caller_entry id c = entry (if c.accepted then in_call else calling) id c.callee

abbrev pub callee_entry : Text → CallRecord → UserCall
callee_entry id c = entry (if c.accepted then in_call else ringing) id c.caller

-- The entry of one user stands for an end of the call `c`.
abbrev pub EndOf : Text → UserCall → CallRecord → Type 0
EndOf u s c =
    ((u ≡ c.caller) × (s ≡ caller_entry s.call_id c))
    ⊎ ((u ≡ c.callee) × (s ≡ callee_entry s.call_id c))

pub record IsConsistent (m : CallManager) : Type 0 where
  pub distinct : (id : Text) (c : CallRecord) → find id m.calls ≡ some c → c.caller ≢ c.callee
  pub callers :
      (id : Text) (c : CallRecord)
      → find id m.calls ≡ some c
      → find c.caller m.users ≡ some (caller_entry id c)
  pub callees :
      (id : Text) (c : CallRecord)
      → find id m.calls ≡ some c
      → find c.callee m.users ≡ some (callee_entry id c)
  pub ends :
      (u : Text) (s : UserCall)
      → find u m.users ≡ some s
      → (c : CallRecord) × (find s.call_id m.calls ≡ some c) × EndOf u s c

pub empty-IsConsistent : IsConsistent empty
unfolding find
empty-IsConsistent = record {
  distinct = λ id c h. cc;
  callers = λ id c h. cc;
  callees = λ id c h. cc;
  ends = λ u s h. cc;
}

-- A call that has just begun, and the same call once it is answered.
abbrev pub pending : Text → Text → CallRecord
pending caller callee = record { caller = caller; callee = callee; accepted = false }

abbrev pub answer : CallRecord → CallRecord
answer c = record c { accepted = true }

-- The managers after a call begins, is answered and ends.
abbrev pub started : CallManager → Text → Text → Text → CallManager
started m caller callee id = record {
  users =
      insert callee (callee_entry id (pending caller callee))
        (insert caller (caller_entry id (pending caller callee)) m.users);
  calls = insert id (pending caller callee) m.calls;
}

abbrev pub answered : CallManager → Text → CallRecord → CallManager
answered m i c = record {
  users =
      insert c.caller (caller_entry i (answer c))
        (insert c.callee (callee_entry i (answer c)) m.users);
  calls = insert i (answer c) m.calls;
}

abbrev pub ended : CallManager → Text → CallRecord → CallManager
ended m i c = record { users = erase c.callee (erase c.caller m.users); calls = erase i m.calls }

-- A new call between two users who are in none.
module _ (m : CallManager) (v : IsConsistent m) (caller callee id : Text) (ne : caller ≢ callee)
    (free_caller : find caller m.users ≡ none) (free_callee : find callee m.users ≡ none)
    (free_id : find id m.calls ≡ none) where
  started-callers :
      (j : Text) (c : CallRecord)
      → find j (started m caller callee id).calls ≡ some c
      → find c.caller (started m caller callee id).users ≡ some (caller_entry j c)
  started-callers j c h = simp find-insert (
      ground (
        arith,
        find-insert id j (pending caller callee) m.calls,
        text_eq_iff id j,
        text_eq_iff callee c.caller,
        text_eq_iff caller c.caller,
        v.callers j c,
      ))

  started-callees :
      (j : Text) (c : CallRecord)
      → find j (started m caller callee id).calls ≡ some c
      → find c.callee (started m caller callee id).users ≡ some (callee_entry j c)
  started-callees j c h = simp find-insert (
      ground (
        arith,
        find-insert id j (pending caller callee) m.calls,
        text_eq_iff id j,
        text_eq_iff callee c.callee,
        text_eq_iff caller c.callee,
        v.callees j c,
      ))

  old_end :
      (u : Text) (s : UserCall)
      → find u m.users ≡ some s
      → (c : CallRecord) × (find s.call_id (started m caller callee id).calls ≡ some c)
        × EndOf u s c
  old_end u s h =
      let (c, found, e) = v.ends u s h in
      (
        c,
        find-insert_ne id s.call_id (pending caller callee) m.calls
              (keys_differ _ _ m.calls free_id found)
            ∙ found,
        e,
      )

  started-ends :
      (u : Text) (s : UserCall)
      → find u (started m caller callee id).users ≡ some s
      → (c : CallRecord) × (find s.call_id (started m caller callee id).calls ≡ some c)
        × EndOf u s c
  started-ends u s h = elim (find-insert_cases callee u _ s _ h) [
    | inl (k, e) ↦ (
      pending caller callee,
      rw (← e) (find-insert_self id (pending caller callee) m.calls),
      inr (sym k, rw (← e) refl),
    )
    | inr (_, h') ↦ elim (find-insert_cases caller u _ s _ h') [
      | inl (k, e) ↦ (
        pending caller callee,
        rw (← e) (find-insert_self id (pending caller callee) m.calls),
        inl (sym k, rw (← e) refl),
      )
      | inr (_, h'') ↦ old_end u s h''
    ]
  ]

  pub started-IsConsistent : IsConsistent (started m caller callee id)
  started-IsConsistent = record {
    distinct =
        λ j c h. ground (arith, find-insert id j (pending caller callee) m.calls, v.distinct j c);
    callers = started-callers;
    callees = started-callees;
    ends = started-ends;
  }
