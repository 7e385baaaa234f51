-- ===== src/Tests/CallRuns.antt =====
-- Runs of server/CallManager.cc: a call from ann to bob.
use chat_service.Base.{
  Text, List, [], ◌∷◌, none, some, find, insert, text_eq, text_eq_iff, arith, text_lt, codes, ◌≡◌,
  ◌≢◌, ◌↔◌, ◌⊎◌, ◌||◌, if◌then◌else◌, refl,
}
use chat_service.Status.{success}
use chat_service.CallManager.{
  entry, idle, calling, ringing, in_call, empty, start_call, accept_call, validate_signaling,
  remove_user, state_for_user, set_in_call, set_accepted, can_accept, same_state,
}
use chat_service.CallManager.Guards.{active}
use chat_service.CallManager.Invariant.{IsConsistent, empty-IsConsistent}
use chat_service.CallManager.Lifecycle.Outcomes.{
  start_call_iff, start_call-states, validate_signaling_iff, remove_user-states,
}
use chat_service.CallManager.Histories.Steps.{
  CallOp, start, accept, hangup, perform, run, run-IsConsistent,
}
use chat_service.CallManager.Histories.Book.{BookStep, view, perform-BookStep}
use chat_service.CallManager.Histories.Transitions.{Transition, perform-Transition}

abbrev ann : Text
ann = codes "ann"

abbrev bob : Text
bob = codes "bob"

abbrev c1 : Text
c1 = codes "c1"

ann-ne-bob : ann ≢ bob
unfolding codes text_eq
ann-ne-bob e = let same = (text_eq_iff ann bob).1 e in ground arith

abbrev dialled : List CallOp
dialled = start ann bob c1 ∷ []

abbrev talking : List CallOp
talking = start ann bob c1 ∷ accept bob ann c1 ∷ []

abbrev finished : List CallOp
finished = start ann bob c1 ∷ accept bob ann c1 ∷ hangup ann bob c1 ∷ []

dialled-IsConsistent : IsConsistent (run empty dialled)
dialled-IsConsistent = run-IsConsistent dialled (ann-ne-bob, tt)

talking-IsConsistent : IsConsistent (run empty talking)
talking-IsConsistent = run-IsConsistent talking (ann-ne-bob, (tt, tt))

-- ann has the entry of the call while it lasts.
ann-talks : find ann (run empty talking).users ≡ some (entry in_call c1 bob)
unfolding run start_call accept_call can_accept same_state set_in_call set_accepted find insert
    text_eq text_lt codes
ann-talks = refl

run-IsConsistent_example : IsConsistent (run empty finished)
run-IsConsistent_example = run-IsConsistent finished (ann-ne-bob, (tt, (tt, tt)))

perform-BookStep_example :
    BookStep
      (view (run empty dialled))
      (view (perform (accept bob ann c1) (run empty dialled)).0)
      (accept bob ann c1)
      (perform (accept bob ann c1) (run empty dialled)).1
perform-BookStep_example =
    perform-BookStep (run empty dialled) dialled-IsConsistent (accept bob ann c1)

perform-Transition_example :
    Transition
      (state_for_user ann (run empty dialled))
      (state_for_user ann (perform (accept bob ann c1) (run empty dialled)).0)
perform-Transition_example =
    perform-Transition (run empty dialled) dialled-IsConsistent (accept bob ann c1) ann tt

start_call_iff_example : ((start_call ann bob c1 empty).1 ≡ success) ↔ (
    (state_for_user ann empty ≡ idle)
    × (state_for_user bob empty ≡ idle)
    × (find c1 empty.calls ≡ none))
start_call_iff_example = start_call_iff empty empty-IsConsistent ann bob c1

nobody_calls : (u : Text) → state_for_user u empty ≡ idle
unfolding state_for_user find
nobody_calls u = refl

no_call : (id : Text) → find id empty.calls ≡ none
unfolding find
no_call id = refl

start_call-states_example : state_for_user bob (start_call ann bob c1 empty).0 ≡ (
    if text_eq bob bob
    then ringing
    else if text_eq ann bob
    then calling
    else state_for_user bob empty)
start_call-states_example =
    start_call-states empty empty-IsConsistent ann bob c1 bob (nobody_calls ann) (nobody_calls bob)
      (no_call c1)

validate_signaling_iff_example :
    (validate_signaling ann bob c1 (codes "webrtc_offer") (run empty talking) ≡ success) ↔ (
      ((find c1 (run empty talking).calls ≡ some (active ann bob))
        × (codes "webrtc_offer" ≢ codes "webrtc_answer"))
      ⊎ ((find c1 (run empty talking).calls ≡ some (active bob ann))
          × (codes "webrtc_offer" ≢ codes "webrtc_offer")))
validate_signaling_iff_example =
    validate_signaling_iff (run empty talking) talking-IsConsistent ann bob c1
      (codes "webrtc_offer")

remove_user-states_example :
    (state_for_user bob (remove_user ann (run empty talking)).0 ≡ (
      if text_eq ann bob || text_eq bob bob then idle else state_for_user bob (run empty talking)))
    × ((remove_user ann (run empty talking)).1
        ≡ some (record {
          call_id = c1;
          peer = bob;
          disconnected_state = state_for_user ann (run empty talking);
        }))
remove_user-states_example =
    remove_user-states (run empty talking) talking-IsConsistent ann bob (entry in_call c1 bob)
      ann-talks
