-- ===== src/CallManager/Lifecycle/Outcomes.antt =====
-- Who may do what in server/CallManager.cc, and what it changes.
use chat_service.Base.{
  Text, true, none, some, codes, text_eq, text_eq_iff, text_eq_refl, text_eq-ne, find,
  if◌then◌else◌, ◌≡◌, ◌≢◌, ◌⊎◌, ◌↔◌, ◌||◌, inl, inr, sym, arith, ap, ◌∙◌,
}
use chat_service.Status.{success}
use chat_service.CallManager.{
  idle, calling, ringing, UserCall, CallManager, validate_signaling, signaling_role, remove_user,
  start_call, state_for_user,
}
use chat_service.CallManager.Invariant.{IsConsistent}
use chat_service.CallManager.Guards.{active, talks, talks_iff}
use chat_service.CallManager.Lifecycle.Effects.{remove_user-end, start_call-fresh}
use chat_service.CallManager.Lifecycle.States.{state-ended, state-started, idle-find}

-- On a consistent manager a call can be started exactly if both users are idle and the id is not
-- in use.
pub start_call_iff :
    (m : CallManager) (v : IsConsistent m) (caller callee id : Text)
    → ((start_call caller callee id m).1 ≡ success) ↔ (
        (state_for_user caller m ≡ idle)
        × (state_for_user callee m ≡ idle)
        × (find id m.calls ≡ none))
unfolding start_call state_for_user
start_call_iff m v caller callee id = (
  λ h. (ground arith, ground arith, ground arith),
  λ h.
      ap (λ r. r.1)
        (start_call-fresh m caller callee id (idle-find m v caller h.0) (idle-find m v callee h.1)
          h.2),
)

-- On a consistent manager, if both users are idle and the id is not in use, starting a call leaves
-- its callee ringing, its caller calling and everybody else as they were.
pub start_call-states :
    (m : CallManager) (v : IsConsistent m) (caller callee id u : Text)
    → state_for_user caller m ≡ idle
    → state_for_user callee m ≡ idle
    → find id m.calls ≡ none
    → state_for_user u (start_call caller callee id m).0 ≡ (
        if text_eq callee u
        then ringing
        else if text_eq caller u
        then calling
        else state_for_user u m)
start_call-states m v caller callee id u h k l =
    rw (start_call-fresh m caller callee id (idle-find m v caller h) (idle-find m v callee k) l)
      (state-started m caller callee id u)

-- The role test for a message from the caller, and for one from the callee.
signaling_role-caller :
    (u p type : Text)
    → u ≢ p
    → (signaling_role u type (some (active u p)) ≡ success) ↔ (type ≢ codes "webrtc_answer")
unfolding signaling_role
signaling_role-caller u p type ne = (
  λ h e. ground (arith, text_eq_refl u, text_eq-ne p u (λ q. ne (sym q)), (text_eq_iff type _).1 e),
  λ h. ground (arith, text_eq_refl u, text_eq_iff type (codes "webrtc_answer")),
)

signaling_role-callee :
    (u p type : Text)
    → u ≢ p
    → (signaling_role u type (some (active p u)) ≡ success) ↔ (type ≢ codes "webrtc_offer")
unfolding signaling_role
signaling_role-callee u p type ne = (
  λ h e. ground (arith, text_eq-ne p u (λ q. ne (sym q)), (text_eq_iff type _).1 e),
  λ h. ground (arith, text_eq_refl u, text_eq_iff type (codes "webrtc_offer")),
)

validate-talks :
    (m : CallManager) (u p id type : Text)
    → talks m u p id ≡ true
    → validate_signaling u p id type m ≡ signaling_role u type (find id m.calls)
unfolding validate_signaling
validate-talks m u p id type h = ground arith

talks_of_validate :
    (m : CallManager) (u p id type : Text)
    → validate_signaling u p id type m ≡ success
    → talks m u p id ≡ true
unfolding validate_signaling
talks_of_validate m u p id type h = ground arith

-- On a consistent manager a signaling message passes exactly if its sender and its target are the
-- two ends of the answered call that it names, and it is no answer from the caller and no offer from
-- the callee.
pub validate_signaling_iff :
    (m : CallManager) (v : IsConsistent m) (u p id type : Text)
    → (validate_signaling u p id type m ≡ success) ↔ (
        ((find id m.calls ≡ some (active u p)) × (type ≢ codes "webrtc_answer"))
        ⊎ ((find id m.calls ≡ some (active p u)) × (type ≢ codes "webrtc_offer")))
validate_signaling_iff m v u p id type = (sound, complete)
  where
    sound :
        validate_signaling u p id type m ≡ success
        → ((find id m.calls ≡ some (active u p)) × (type ≢ codes "webrtc_answer"))
          ⊎ ((find id m.calls ≡ some (active p u)) × (type ≢ codes "webrtc_offer"))
    sound h =
        let t = talks_of_validate m u p id type h in
        let e = validate-talks m u p id type t in
        elim ((talks_iff m v u p id).0 t) [
          | inl f ↦ inl (
            f,
            (signaling_role-caller u p type (v.distinct id _ f)).0
                (ap (signaling_role u type) (sym f) ∙ sym e ∙ h),
          )
          | inr f ↦ inr (
            f,
            (signaling_role-callee u p type (λ q. v.distinct id _ f (sym q))).0
                (ap (signaling_role u type) (sym f) ∙ sym e ∙ h),
          )
        ]

    complete :
        ((find id m.calls ≡ some (active u p)) × (type ≢ codes "webrtc_answer"))
          ⊎ ((find id m.calls ≡ some (active p u)) × (type ≢ codes "webrtc_offer"))
        → validate_signaling u p id type m ≡ success
    complete (inl (f, role)) =
        validate-talks m u p id type ((talks_iff m v u p id).1 (inl f))
        ∙ ap (signaling_role u type) f
        ∙ (signaling_role-caller u p type (v.distinct id _ f)).1 role
    complete (inr (f, role)) =
        validate-talks m u p id type ((talks_iff m v u p id).1 (inr f))
        ∙ ap (signaling_role u type) f
        ∙ (signaling_role-callee u p type (λ q. v.distinct id _ f (sym q))).1 role

-- When a user who is in a call is removed, both ends of that call become idle, everybody else stays
-- as they were, and the event names the call, the other end and the state the user was in.
pub remove_user-states :
    (m : CallManager) (v : IsConsistent m) (u w : Text) (s : UserCall)
    → find u m.users ≡ some s
    → (state_for_user w (remove_user u m).0
        ≡ (if text_eq u w || text_eq s.peer w then idle else state_for_user w m))
      × ((remove_user u m).1
          ≡ some (record {
            call_id = s.call_id;
            peer = s.peer;
            disconnected_state = state_for_user u m;
          }))
unfolding state_for_user
remove_user-states m v u w s h =
    let (c, found, side) = v.ends u s h in
    ground (arith, remove_user-end m u s c h found, state-ended m s.call_id c w)
