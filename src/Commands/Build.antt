-- ===== src/Commands/Build.antt =====
-- `buildRequestFromCommand` of common/Protocol.cc: a typed command becomes a request line.
use chat_service.Base.{
  ℕ, Text, Option, none, some, [], ◌∷◌, ◌++◌, insert, is_empty, text_eq, codes, ◌==◌, if◌then◌else◌,
}
use chat_service.Commands.Tokens.{
  to_upper_copy, read_token, has_extra_text, trim_copy, rest_of_line,
}
use chat_service.Json.{JsonObject, ok, err, out_of_fuel, parse_json_object, make_json_line}
use chat_service.Server.Numbers.{int64_to_string}

-- `built line` is `true` with `*jsonLine = line`, `refused e` is `false` with `*error = e`;
-- `unfinished` stands for a reader of JSON that runs out of fuel or of stack.
pub data Built : Type 0 where
  built : Text → Built
  refused : Text → Built
  unfinished : Built

module _ (now : ℕ) where
  abbrev pub timed_object : JsonObject → JsonObject
  timed_object object = insert (codes "sent_at_us") (int64_to_string now) object

  unfoldable pub finish_object : JsonObject → Built
  finish_object object = built (make_json_line (timed_object object))

  -- LOGOUT and USERS.
  unfoldable pub build_plain : Text → Text → Text → Built
  unfolding finish_object has_extra_text
  build_plain type usage pos =
      if has_extra_text pos then refused usage else finish_object (insert (codes "type") type [])

  -- LOGIN, CREATE_ROOM, JOIN and LEAVE, on the token that was read.
  unfoldable pub named_after : Text → Text → Text → Option (Text × Text) → Built
  unfolding finish_object has_extra_text
  named_after type key usage none = refused usage
  named_after type key usage (some (name, rest)) =
      if has_extra_text rest
      then refused usage
      else finish_object (insert key name (insert (codes "type") type []))

  unfoldable pub build_named : Text → Text → Text → Text → Built
  unfolding named_after read_token
  build_named type key usage pos = named_after type key usage (read_token pos)

  -- PRIVATE and ROOM_MSG, on the token that was read.
  unfoldable pub message_after : Text → Text → Text → Option (Text × Text) → Built
  unfolding finish_object rest_of_line
  message_after type key usage none = refused usage
  message_after type key usage (some (name, rest)) =
      if is_empty (rest_of_line rest)
      then refused usage
      else finish_object (
          insert (codes "message") (rest_of_line rest)
            (insert key name (insert (codes "type") type [])))

  unfoldable pub build_message : Text → Text → Text → Text → Built
  unfolding message_after read_token
  build_message type key usage pos = message_after type key usage (read_token pos)

  -- Behind the name of HISTORY_PRIVATE and HISTORY_ROOM: the limit may be missing.
  unfoldable pub with_limit : JsonObject → Text → Option (Text × Text) → Text → Built
  unfolding finish_object has_extra_text
  with_limit object usage none rest =
      if has_extra_text rest then refused usage else finish_object object
  with_limit object usage (some (limit, end)) rest =
      if has_extra_text end
      then refused usage
      else finish_object (insert (codes "limit") limit object)

  unfoldable pub history_after : Text → Text → Text → Option (Text × Text) → Built
  unfolding with_limit read_token
  history_after type key usage none = refused usage
  history_after type key usage (some (name, rest)) =
      with_limit (insert key name (insert (codes "type") type [])) usage (read_token rest) rest

  unfoldable pub build_history : Text → Text → Text → Text → Built
  unfolding history_after read_token
  build_history type key usage pos = history_after type key usage (read_token pos)

  -- The chain of tests on the command, with `pos` behind it.
  unfoldable pub build_command : Text → Text → Built
  unfolding build_plain build_named build_message build_history
  build_command command pos =
      if text_eq command (codes "LOGIN")
      then build_named (codes "login") (codes "username") (codes "usage: LOGIN username") pos
      else if text_eq command (codes "LOGOUT")
      then build_plain (codes "logout") (codes "usage: LOGOUT") pos
      else if text_eq command (codes "USERS")
      then build_plain (codes "users") (codes "usage: USERS") pos
      else if text_eq command (codes "PRIVATE")
      then build_message (codes "private") (codes "target")
          (codes "usage: PRIVATE target_username message") pos
      else if text_eq command (codes "CREATE_ROOM")
      then build_named (codes "create_room") (codes "room") (codes "usage: CREATE_ROOM room_name")
          pos
      else if text_eq command (codes "JOIN")
      then build_named (codes "join") (codes "room") (codes "usage: JOIN room_name") pos
      else if text_eq command (codes "LEAVE")
      then build_named (codes "leave") (codes "room") (codes "usage: LEAVE room_name") pos
      else if text_eq command (codes "ROOM_MSG")
      then build_message (codes "room_msg") (codes "room")
          (codes "usage: ROOM_MSG room_name message") pos
      else if text_eq command (codes "HISTORY_PRIVATE")
      then build_history (codes "history_private") (codes "peer")
          (codes "usage: HISTORY_PRIVATE peer [limit]") pos
      else if text_eq command (codes "HISTORY_ROOM")
      then build_history (codes "history_room") (codes "room")
          (codes "usage: HISTORY_ROOM room [limit]") pos
      else refused (codes "unknown command")

  -- A line that is JSON already is only checked.
  unfoldable pub build_json : Text → Built
  build_json trimmed = elim (parse_json_object trimmed) [
    | ok object rest ↦ built (trimmed ++ 0x0a ∷ [])
    | err e ↦ refused e
    | out_of_fuel ↦ unfinished
  ]

  unfoldable pub command_after : Option (Text × Text) → Built
  unfolding build_command to_upper_copy
  command_after none = refused (codes "empty command")
  command_after (some (command, pos)) = build_command (to_upper_copy command) pos

  unfoldable pub build_typed : Text → Built
  unfolding read_token command_after
  build_typed trimmed = command_after (read_token trimmed)

  unfoldable pub build_trimmed : Text → Built
  unfolding build_json build_typed
  build_trimmed [] = refused (codes "empty command")
  build_trimmed (c ∷ s) = if c == b'{' then build_json (c ∷ s) else build_typed (c ∷ s)

  unfoldable pub build_request_from_command : Text → Built
  unfolding build_trimmed trim_copy
  build_request_from_command line = build_trimmed (trim_copy line)
