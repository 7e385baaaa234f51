-- ===== src/Server/Calls.antt =====
-- The calls: server/ChatServer.cc.
use chat_service.Base.{
  Text, Bool, true, ◌||◌, [], ◌∷◌, ◌++◌, none, some, is_empty, codes, insert, text_eq,
  if◌then◌else◌, not, ◌==◌,
}
use chat_service.CallManager.{
  CallManager, start_call, accept_call, reject_call, cancel_call, timeout_call, hangup_call,
  validate_signaling,
}
use chat_service.Json.{JsonObject, escape_json_string}
use chat_service.Names.{is_valid_name, is_valid_call_id}
use chat_service.Protocol.{field_or_empty}
use chat_service.Server.Accounts.{make_call_event}
use chat_service.Server.Chat.{string_field, comma}
use chat_service.Server.State.{ChatServer, send, send_json, when_logged_in}
use chat_service.Status.{Status, success, failure}
use chat_service.UserManager.{Connection, find_user}

-- `makeCallError` and `makeCallBusy`, which differ in the type.
unfoldable pub make_refusal : Text → Text → Text → Text → JsonObject
make_refusal type username call_id reason = insert (codes "reason") reason (
    insert (codes "call_id") call_id (
      insert (codes "to") username
        (insert (codes "from") (codes "server") (insert (codes "type") type []))))

abbrev pub make_call_error : Text → Text → Text → JsonObject
make_call_error = make_refusal (codes "call_error")

abbrev pub make_call_busy : Text → Text → Text → JsonObject
make_call_busy = make_refusal (codes "call_busy")

-- The payload is written as it stands.
unfoldable pub build_signaling_event : Text → Text → Text → Text → Text → Text → Text
unfolding string_field
build_signaling_event type from to call_id payload_name raw_payload =
    b'{'
    ∷ (string_field (codes "type") type
        ++ comma (string_field (codes "from") from)
        ++ comma (string_field (codes "to") to)
        ++ comma (string_field (codes "call_id") call_id)
        ++ b',' ∷ 0x22 ∷ (escape_json_string payload_name ++ 0x22 ∷ b':' ∷ raw_payload)
        ++ codes "}\n")

abbrev pub is_signaling : Text → Bool
is_signaling type =
    text_eq type (codes "webrtc_offer")
    || text_eq type (codes "webrtc_answer")
    || text_eq type (codes "ice_candidate")

-- `rawPayload.empty() || rawPayload[0] != '{'`
abbrev pub is_no_object : Text → Bool
is_no_object [] = true
is_no_object (c ∷ payload) = not (c == b'{')

-- The operation that a type stands for; another type leaves `valid` false and the reason empty.
unfoldable pub call_operation : Text → Text → Text → Text → CallManager → CallManager × Status
call_operation type name target id m =
    if text_eq type (codes "call_accept")
    then accept_call name target id m
    else if text_eq type (codes "call_reject")
    then reject_call name target id m
    else if text_eq type (codes "call_cancel")
    then cancel_call name target id m
    else if text_eq type (codes "call_timeout")
    then timeout_call name target id m
    else if text_eq type (codes "call_hangup")
    then hangup_call name target id m
    else (m, failure [])

-- The reason that the other end is told.
unfoldable pub event_reason : Text → JsonObject → Text
unfolding field_or_empty
event_reason type request =
    if text_eq type (codes "call_reject")
    then (if is_empty (field_or_empty request (codes "reason"))
        then codes "rejected"
        else field_or_empty request (codes "reason"))
    else if text_eq type (codes "call_timeout")
    then codes "timeout"
    else []

module _ {St : Type 0} where
  abbrev pub send_call_error : Connection → Text → Text → Text → ChatServer St → ChatServer St
  send_call_error c name id reason s = send_json c (make_call_error name id reason) s

  abbrev pub set_calls : CallManager → ChatServer St → ChatServer St
  set_calls calls s = record s { calls = calls }

  -- `call_invite`, behind `startCall`: the target is looked up once more.
  unfoldable pub invited :
      Connection → Text → Text → Text → CallManager × Status → ChatServer St → ChatServer St
  unfolding make_call_event
  invited c name target id (calls, failure reason) s =
      if text_eq reason (codes "caller_busy") || text_eq reason (codes "target_busy")
      then send_json c (make_call_busy name id reason) (set_calls calls s)
      else send_call_error c name id reason (set_calls calls s)
  invited c name target id (calls, success) s = elim (find_user target s.users) [
    | none ↦
        send_call_error c name id (codes "target_offline")
          (set_calls (cancel_call name target id calls).0 s)
    | some d ↦
        send_json d
          (insert (codes "media") (codes "video")
            (make_call_event (codes "call_invite") name target id []))
          (set_calls calls s)
  ]

  unfoldable pub invite :
      Connection → Text → Text → Text → JsonObject → ChatServer St → ChatServer St
  unfolding invited field_or_empty
  invite c name target id request s =
      if not (text_eq (field_or_empty request (codes "media")) (codes "video"))
      then send_call_error c name id (codes "unsupported_media") s
      else elim (find_user target s.users) [
        | none ↦ send_call_error c name id (codes "target_offline") s
        | some d ↦ invited c name target id (start_call name target id s.calls) s
      ]

  -- Behind `validateSignaling`.
  unfoldable pub validated :
      Connection → Text → Text → Text → Text → Text → Text → Status → ChatServer St → ChatServer St
  unfolding build_signaling_event
  validated c type name target id payload_name payload (failure reason) s =
      send_call_error c name id reason s
  validated c type name target id payload_name payload success s = elim (find_user target s.users) [
    | none ↦
        send_call_error c name id (codes "target_offline")
          (set_calls (hangup_call name target id s.calls).0 s)
    | some d ↦ send d (build_signaling_event type name target id payload_name payload) s
  ]

  unfoldable pub signal :
      Connection → Text → Text → Text → Text → JsonObject → ChatServer St → ChatServer St
  unfolding validated field_or_empty
  signal c type name target id request s =
      let payload_name =
        if text_eq type (codes "ice_candidate") then codes "candidate" else codes "sdp" in
      let payload = field_or_empty request payload_name in
      if is_no_object payload
      then send_call_error c name id (codes "invalid_signaling_payload") s
      else validated c type name target id payload_name payload
          (validate_signaling name target id type s.calls) s

  -- Behind the operation of an answered, ended or refused call.
  unfoldable pub operated :
      Connection
      → Text
      → Text
      → Text
      → Text
      → JsonObject
      → CallManager × Status
      → ChatServer St
      → ChatServer St
  unfolding make_call_event event_reason
  operated c type name target id request (calls, failure reason) s =
      send_call_error c name id reason (set_calls calls s)
  operated c type name target id request (calls, success) s = elim (find_user target s.users) [
    | some d ↦
        send_json d (make_call_event type name target id (event_reason type request))
          (set_calls calls s)
    | none ↦
        if text_eq type (codes "call_accept")
        then send_call_error c name id (codes "target_offline")
            (set_calls (hangup_call name target id calls).0 s)
        else set_calls calls s
  ]

  -- Behind the checks of the target and the id.
  unfoldable pub call_request :
      Connection → Text → Text → Text → Text → JsonObject → ChatServer St → ChatServer St
  unfolding invite signal operated call_operation
  call_request c type name target id request s =
      if text_eq type (codes "call_invite")
      then invite c name target id request s
      else if is_signaling type
      then signal c type name target id request s
      else operated c type name target id request (call_operation type name target id s.calls) s

  unfoldable pub checked_request :
      Connection → Text → Text → Text → Text → JsonObject → ChatServer St → ChatServer St
  unfolding call_request
  checked_request c type name target id request s =
      if not (is_valid_name target)
      then send_call_error c name id (codes "invalid_target") s
      else if not (is_valid_call_id id)
      then send_call_error c name id (codes "invalid_call_id") s
      else if text_eq target name
      then send_call_error c name id (codes "cannot_call_self") s
      else call_request c type name target id request s

  unfoldable pub handle_call_request : Connection → JsonObject → ChatServer St → ChatServer St
  unfolding checked_request field_or_empty
  handle_call_request c request s = when_logged_in c s λ name.
      checked_request c (field_or_empty request (codes "type")) name
        (field_or_empty request (codes "to")) (field_or_empty request (codes "call_id")) request s
