-- ===== src/CallManager/Histories/Transitions.antt =====
-- The state machine of one user: `CallUserState` of server/CallManager.h.
use chat_service.Base.{Text, find, none, text_eq_iff, ◌≡◌, ◌⊎◌, inl, inr, refl, sym, subst, arith}
use chat_service.CallManager.{
  CallManager, CallUserState, idle, calling, ringing, in_call, state_for_user,
}
use chat_service.CallManager.Invariant.{IsConsistent, pending}
use chat_service.CallManager.Lifecycle.States.{
  state-started, state-answered, state-ended, states_of_call,
}
use chat_service.CallManager.Histories.Steps.{
  CallOp, IsAllowed, perform, Change, shifts, none_made, begins, answers, ends, perform-Change,
}

pub data Transition : CallUserState → CallUserState → Type 0 where
  stays : (s : CallUserState) → Transition s s
  dials : Transition idle calling
  rings : Transition idle ringing
  is_answered : Transition calling in_call
  picks_up : Transition ringing in_call
  drops : (s : CallUserState) → Transition s idle

-- The same arrows, as a condition on the two states that the tactics compute.
abbrev Arrow : CallUserState → CallUserState → Type 0
Arrow s t =
    (s ≡ t)
    ⊎ (t ≡ idle)
    ⊎ ((s ≡ idle) × (t ≡ calling))
    ⊎ ((s ≡ idle) × (t ≡ ringing))
    ⊎ ((s ≡ calling) × (t ≡ in_call))
    ⊎ ((s ≡ ringing) × (t ≡ in_call))

Arrow-Transition : (s t : CallUserState) → Arrow s t → Transition s t
Arrow-Transition s t (inl e) = subst (Transition s) e (stays s)
Arrow-Transition s t (inr (inl e)) = subst (Transition s) (sym e) (drops s)
Arrow-Transition s t (inr (inr (inl (e, f)))) = rw (e, f) dials
Arrow-Transition s t (inr (inr (inr (inl (e, f))))) = rw (e, f) rings
Arrow-Transition s t (inr (inr (inr (inr (inl (e, f)))))) = rw (e, f) is_answered
Arrow-Transition s t (inr (inr (inr (inr (inr (e, f)))))) = rw (e, f) picks_up

idle_of_find : (m : CallManager) (u : Text) → find u m.users ≡ none → state_for_user u m ≡ idle
unfolding state_for_user
idle_of_find m u h = rw h

Change-Arrow :
    {m n : CallManager} (v : IsConsistent m) (u : Text)
    → Change m n
    → Arrow (state_for_user u m) (state_for_user u n)
Change-Arrow v u (shifts none_made) = inl refl
Change-Arrow {m} v u (begins caller callee id ne h k l) = ground (
  arith,
  state-started m caller callee id u,
  idle_of_find m caller h,
  idle_of_find m callee k,
  text_eq_iff callee u,
  text_eq_iff caller u,
)
Change-Arrow {m} v u (shifts (answers caller callee id h)) = ground (
  arith,
  state-answered m id (pending caller callee) u,
  states_of_call m v id _ h,
  text_eq_iff callee u,
  text_eq_iff caller u,
)
Change-Arrow {m} v u (shifts (ends id c h)) = ground (arith, state-ended m id c u)

-- Whatever operation is performed on a consistent manager, provided that it does not start a call
-- from a user to the same user, each user's state stays, or moves from idle to calling or ringing,
-- from calling or ringing to the call, or back to idle.
pub perform-Transition :
    (m : CallManager) (v : IsConsistent m) (op : CallOp) (u : Text)
    → IsAllowed op
    → Transition (state_for_user u m) (state_for_user u (perform op m).0)
perform-Transition m v op u a = Arrow-Transition _ _ (Change-Arrow v u (perform-Change m v op a))
