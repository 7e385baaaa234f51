-- ===== src/Server/Invariant/CallRequests.antt =====
-- `handleCallRequest` of server/ChatServer.cc keeps the parts of the server in agreement.
use chat_service.Base.{
  Text, Bool, true, false, ◌||◌, Option, none, some, find, has, is_some, text_eq, text_eq_iff,
  codes, if◌then◌else◌, ◌≡◌, ◌≢◌, inl, inr, sym, ap, subst, Bool-cases, Option-cases,
}
use chat_service.CallManager.{CallManager, start_call, validate_signaling}
use chat_service.CallManager.Histories.Steps.{
  Shift, none_made, accept-Shift, reject-Shift, cancel-Shift, timeout-Shift, hangup-Shift,
}
use chat_service.CallManager.Invariant.{IsConsistent}
use chat_service.CallManager.Lifecycle.Effects.{
  start_call-fresh, start_call-caller_busy, start_call-target_busy, start_call-duplicate,
}
use chat_service.Json.{JsonObject}
use chat_service.Names.{is_valid_name, is_valid_call_id}
use chat_service.Protocol.{field_or_empty}
use chat_service.RoomManager.{RoomManager}
use chat_service.Server.Calls.{
  call_operation, invited, invite, validated, signal, operated, call_request, checked_request,
  handle_call_request, is_signaling, is_no_object, send_call_error,
}
use chat_service.Server.Invariant.Preserved.{when_logged_in-IsServing}
use chat_service.Server.Invariant.Serving.{Serving, IsServing, Shift-Serving, begin-Serving}
use chat_service.Server.State.{ChatServer}
use chat_service.Status.{Status, success, failure}
use chat_service.UserManager.{UserManager, Connection, find_user}

call_operation-Shift :
    (type name target id : Text) (m : CallManager)
    → IsConsistent m
    → Shift m (call_operation type name target id m).0
unfolding call_operation
call_operation-Shift type name target id m v =
    elim (Bool-cases (text_eq type (codes "call_accept"))) [
      | inl h ↦ rw h (accept-Shift m v name target id)
      | inr h ↦ rw h (elim (Bool-cases (text_eq type (codes "call_reject"))) [
        | inl h ↦ rw h (reject-Shift m v name target id)
        | inr h ↦ rw h (elim (Bool-cases (text_eq type (codes "call_cancel"))) [
          | inl h ↦ rw h (cancel-Shift m v name target id)
          | inr h ↦ rw h (elim (Bool-cases (text_eq type (codes "call_timeout"))) [
            | inl h ↦ rw h (timeout-Shift m v name target id)
            | inr h ↦ rw h (elim (Bool-cases (text_eq type (codes "call_hangup"))) [
              | inl h ↦ rw h (hangup-Shift m v name target id)
              | inr h ↦ rw h none_made
            ])
          ])
        ])
      ])
    ]

-- A change by a start between users who are online.
started-Serving :
    (users : UserManager) (rooms : RoomManager) (calls : CallManager)
    (sessions : Connection → Option Text) (caller callee id : Text)
    → Serving users rooms calls sessions
    → caller ≢ callee
    → has caller users.users ≡ true
    → has callee users.users ≡ true
    → Serving users rooms (start_call caller callee id calls).0 sessions
started-Serving users rooms calls sessions caller callee id v ne on_caller on_callee =
    elim (Option-cases (find caller calls.users)) [
      | inr (e, h) ↦ subst keeps (sym (start_call-caller_busy calls caller callee id e h)) v
      | inl h ↦ elim (Option-cases (find callee calls.users)) [
        | inr (e, k) ↦ subst keeps (sym (start_call-target_busy calls caller callee id e h k)) v
        | inl k ↦ elim (Option-cases (find id calls.calls)) [
          | inr (d, l) ↦ subst keeps (sym (start_call-duplicate calls caller callee id d h k l)) v
          | inl l ↦ subst keeps (sym (start_call-fresh calls caller callee id h k l)) (
              begin-Serving users rooms calls sessions v caller callee id ne h k l on_caller
                on_callee)
        ]
      ]
    ]
  where
    keeps : CallManager × Status → Type 0
    keeps r = Serving users rooms r.0 sessions

module _ {St : Type 0} where
  invited-IsServing :
      (c : Connection) (name target id : Text) (r : CallManager × Status) (s : ChatServer St)
      → Serving s.users s.rooms r.0 s.sessions
      → IsServing (invited c name target id r s)
  unfolding invited
  invited-IsServing c name target id (calls, failure e) s v =
      elim (Bool-cases (text_eq e (codes "caller_busy") || text_eq e (codes "target_busy"))) [
        | inl h ↦ rw h (record { at = v })
        | inr h ↦ rw h (record { at = v })
      ]
  invited-IsServing c name target id (calls, success) s v =
      elim (Option-cases (find_user target s.users)) [
        | inl e ↦
            rw (e, invited)
              (record {
                at =
                    Shift-Serving s.users s.rooms calls s.sessions v _
                      (cancel-Shift calls v.calls_agree name target id);
              })
        | inr (d, e) ↦ rw (e, invited) (record { at = v })
      ]

  validated-IsServing :
      (c : Connection) (type name target id payload_name payload : Text) (r : Status)
      (s : ChatServer St)
      → IsServing s
      → IsServing (validated c type name target id payload_name payload r s)
  unfolding validated
  validated-IsServing c type name target id payload_name payload (failure e) s v = record {
    at = v.at;
  }
  validated-IsServing c type name target id payload_name payload success s v =
      elim (Option-cases (find_user target s.users)) [
        | inl e ↦
            rw (e, validated)
              (record {
                at =
                    Shift-Serving s.users s.rooms s.calls s.sessions v.at _
                      (hangup-Shift s.calls v.at.calls_agree name target id);
              })
        | inr (d, e) ↦ rw (e, validated) (record { at = v.at })
      ]

  operated-IsServing :
      (c : Connection) (type name target id : Text) (request : JsonObject)
      (r : CallManager × Status) (s : ChatServer St)
      → Serving s.users s.rooms r.0 s.sessions
      → IsServing (operated c type name target id request r s)
  unfolding operated
  operated-IsServing c type name target id request (calls, failure e) s v = record { at = v }
  operated-IsServing c type name target id request (calls, success) s v =
      elim (Option-cases (find_user target s.users)) [
        | inr (d, e) ↦ rw (e, operated) (record { at = v })
        | inl e ↦
            rw (e, operated)
              (elim (Bool-cases (text_eq type (codes "call_accept"))) [
                | inr h ↦ rw h (record { at = v })
                | inl h ↦ rw h (record {
                  at =
                      Shift-Serving s.users s.rooms calls s.sessions v _
                        (hangup-Shift calls v.calls_agree name target id);
                })
              ])
      ]

  invite-IsServing :
      (c : Connection) (name target id : Text) (request : JsonObject) (s : ChatServer St)
      → IsServing s
      → name ≢ target
      → has name s.users.users ≡ true
      → IsServing (invite c name target id request s)
  unfolding invite
  invite-IsServing c name target id request s v ne on =
      elim (Bool-cases (text_eq (field_or_empty request (codes "media")) (codes "video"))) [
        | inr h ↦ rw h (record { at = v.at })
        | inl h ↦ rw h (elim (Option-cases (find target s.users.users)) [
          | inl e ↦ subst (λ o. IsServing (looked_up o)) (sym (found e)) (record { at = v.at })
          | inr (d, e) ↦
              subst (λ o. IsServing (looked_up o)) (sym (found e))
                (invited-IsServing c name target id (start_call name target id s.calls) s (
                  started-Serving s.users s.rooms s.calls s.sessions name target id v.at ne on
                    (ap is_some e)))
        ])
      ]
    where
      looked_up : Option Connection → ChatServer St
      looked_up o = elim o [
        | none ↦ send_call_error c name id (codes "target_offline") s
        | some d ↦ invited c name target id (start_call name target id s.calls) s
      ]

      found : {o : Option Connection} → find target s.users.users ≡ o → find_user target s.users ≡ o
      found e = unfold find_user in e

  signal-IsServing :
      (c : Connection) (type name target id : Text) (request : JsonObject) (s : ChatServer St)
      → IsServing s
      → IsServing (signal c type name target id request s)
  unfolding signal
  signal-IsServing c type name target id request s v = checked (is_no_object payload)
    where
      payload_name : Text
      payload_name = if text_eq type (codes "ice_candidate") then codes "candidate" else codes "sdp"

      payload : Text
      payload = field_or_empty request payload_name

      checked :
          (b : Bool)
          → IsServing (
              if b
              then send_call_error c name id (codes "invalid_signaling_payload") s
              else validated c type name target id payload_name payload
                  (validate_signaling name target id type s.calls)
                  s)
      checked true = record { at = v.at }
      checked false =
          validated-IsServing c type name target id payload_name payload
            (validate_signaling name target id type s.calls) s v

  call_request-IsServing :
      (c : Connection) (type name target id : Text) (request : JsonObject) (s : ChatServer St)
      → IsServing s
      → name ≢ target
      → has name s.users.users ≡ true
      → IsServing (call_request c type name target id request s)
  unfolding call_request
  call_request-IsServing c type name target id request s v ne on =
      elim (Bool-cases (text_eq type (codes "call_invite"))) [
        | inl h ↦ rw h (invite-IsServing c name target id request s v ne on)
        | inr h ↦ rw h (elim (Bool-cases (is_signaling type)) [
          | inl k ↦ rw k (signal-IsServing c type name target id request s v)
          | inr k ↦ rw k (
              operated-IsServing c type name target id request
                (call_operation type name target id s.calls) s
                (Shift-Serving s.users s.rooms s.calls s.sessions v.at _
                  (call_operation-Shift type name target id s.calls v.at.calls_agree)))
        ])
      ]

  checked_request-IsServing :
      (c : Connection) (type name target id : Text) (request : JsonObject) (s : ChatServer St)
      → IsServing s
      → has name s.users.users ≡ true
      → IsServing (checked_request c type name target id request s)
  unfolding checked_request
  checked_request-IsServing c type name target id request s v on =
      elim (Bool-cases (is_valid_name target)) [
        | inr h ↦ rw h (record { at = v.at })
        | inl h ↦ rw h (elim (Bool-cases (is_valid_call_id id)) [
          | inr k ↦ rw k (record { at = v.at })
          | inl k ↦ rw k (elim (Bool-cases (text_eq target name)) [
            | inl l ↦ rw l (record { at = v.at })
            | inr l ↦ rw l (
                call_request-IsServing c type name target id request s v
                  (λ e. cc (l, (text_eq_iff target name).1 (sym e))) on)
          ])
        ])
      ]

  pub handle_call_request-IsServing :
      (c : Connection) (request : JsonObject) (s : ChatServer St)
      → IsServing s
      → IsServing (handle_call_request c request s)
  unfolding handle_call_request
  handle_call_request-IsServing c request s v =
      when_logged_in-IsServing c s
        (λ name.
          checked_request c (field_or_empty request (codes "type")) name
            (field_or_empty request (codes "to")) (field_or_empty request (codes "call_id")) request
            s)
        v
        λ name e full.
          checked_request-IsServing c (field_or_empty request (codes "type")) name
            (field_or_empty request (codes "to")) (field_or_empty request (codes "call_id")) request
            s v (ap is_some (v.at.logged_in c name e full))
