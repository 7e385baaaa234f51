-- ===== src/Tests/LineRuns.antt =====
-- Bytes that arrive at the server of server/ChatServer.cc.
use chat_service.Base.{
  text_eq, ◌+◌, ℕ, [], ◌∷◌, ◌++◌, List, Text, codes, none, true, length, is_some, is_empty, ◌≡◌,
  ◌⊎◌, ◌<◌, ◌≤◌, refl, arith,
}
use chat_service.Commands.Build.{
  built, refused, timed_object, build_trimmed, build_typed, command_after, build_command,
  build_request_from_command,
}
use chat_service.Commands.Tokens.{
  to_upper_copy, read_token, trim_copy, trim_left, trim_right, word, behind_word,
}
use chat_service.Commands.Typed.{users, name_of, arguments_of, request_of}
use chat_service.Commands.Words.{IsToken}
use chat_service.Json.{skip_whitespace}
use chat_service.Server.Lines.Chunks.{
  IsSame, handle_lines, read_loop-lines, on_message-append, on_message-bounded,
}
use chat_service.Server.Lines.Clients.{on_message-command}
use chat_service.Server.Lines.Loop.{
  Reading, Node, connection_opened, handle_object, max_request_line_bytes, read_loop, on_message,
}
use chat_service.Server.Lines.Split.{take_line, lines_of, rest_of}
use chat_service.Server.Requests.{open_connection}
use chat_service.Server.World.{
  Input, opens, closes, receives, interval, started_world, react, live, OpensNew,
}
use chat_service.Server.World.Kept.{IsLive, live-IsLive}
use chat_service.TerminalClient.{type_lines}
use chat_service.TerminalClient.Session.{
  TypedLine, command, object, other, AreTypedLines, requests_of, typed_lines, joined,
  handle_objects, new_client, on_message-type_lines,
}
use chat_service.Tests.ServerRuns.{counting}

abbrev clock : ℕ → Reading
clock n = record { micros = n; seconds = n }

abbrev node : Node ℕ
node = connection_opened 1 (started_world 0).node

node_here : is_some (node.server.sessions 1) ≡ true
unfolding connection_opened open_connection
node_here = refl

-- A line with its end, an empty line, and the start of another line.
abbrev bytes : Text
bytes = codes "{\"type\":\"users\"}" ++ 0x0d ∷ 0x0a ∷ 0x0a ∷ codes "{\"ty"

bytes_lines :
    (lines_of bytes ≡ (codes "{\"type\":\"users\"}" ++ 0x0d ∷ []) ∷ [] ∷ [])
    × (rest_of bytes ≡ codes "{\"ty")
unfolding lines_of rest_of codes
bytes_lines = (refl, refl)

bytes_short : length (rest_of bytes) ≤ max_request_line_bytes
unfolding rest_of lines_of codes
bytes_short = omega arith

length-bytes : length bytes < 30
unfolding codes
length-bytes = omega arith

read_loop-lines_example :
    read_loop counting clock 5 1 30 bytes node
    ≡ (rest_of bytes, handle_lines counting clock 1 5 (lines_of bytes) node)
read_loop-lines_example = read_loop-lines counting clock 1 5 30 bytes node length-bytes

abbrev slow_clock : ℕ → Reading
slow_clock n = record { micros = n + 900; seconds = n }

on_message-append_example :
    ((on_message counting clock 6 1
        ((on_message counting clock 5 1 bytes node).0 ++ codes "pe\":\"users\"}")
        (on_message counting clock 5 1 bytes node).1).0
      ≡ (on_message counting slow_clock 7 1 (bytes ++ codes "pe\":\"users\"}") node).0)
    × IsSame
        (on_message counting clock 6 1
          ((on_message counting clock 5 1 bytes node).0 ++ codes "pe\":\"users\"}")
          (on_message counting clock 5 1 bytes node).1).1
        (on_message counting slow_clock 7 1 (bytes ++ codes "pe\":\"users\"}") node).1
on_message-append_example =
    on_message-append counting clock slow_clock 1 (λ k. refl) 5 6 7 bytes (codes "pe\":\"users\"}")
      node node_here bytes_short

on_message-bounded_example :
    (take_line (on_message counting clock 5 1 bytes node).0 ≡ none)
    × ((length (on_message counting clock 5 1 bytes node).0 ≤ 65_536)
        ⊎ ((on_message counting clock 5 1 bytes node).1.closing 1 ≡ true))
on_message-bounded_example = on_message-bounded counting clock 1 5 bytes node node_here

users_word : IsToken (codes "users")
unfolding codes is_empty
users_word = (refl, (refl, (refl, (refl, (refl, (refl, tt))))))

users_name : to_upper_copy (codes "users") ≡ name_of users
unfolding to_upper_copy codes
users_name = refl

-- A command, a line that is no command, an object, and what is not read any more.
nonsense : build_request_from_command 1 (codes "nonsense") ≡ refused (codes "unknown command")
unfolding build_request_from_command build_trimmed build_typed command_after build_command
    read_token trim_copy trim_left trim_right to_upper_copy codes text_eq is_empty word behind_word
    skip_whitespace
nonsense = refl

abbrev typed : List TypedLine
typed = command (codes "uSers") users ∷ other (codes "nonsense") ∷ object [] ∷ []

typed-AreTypedLines : AreTypedLines (λ k. k) 0 typed
unfolding codes is_empty to_upper_copy text_eq
typed-AreTypedLines = (
  ((refl, (refl, (refl, (refl, (refl, (refl, tt)))))), refl, tt),
  ((refl, (codes "unknown command", nonsense)), (tt, tt)),
)

on_message-type_lines_example :
    on_message counting clock 5 1
      (joined (type_lines (λ k. k) 0 (typed_lines typed (codes "users" ∷ [])) new_client).sent)
      node
    ≡ ([], handle_objects counting clock 5 1 (requests_of (λ k. k) 0 typed) node)
on_message-type_lines_example =
    on_message-type_lines counting clock 5 1 (λ k. k) typed (codes "users" ∷ []) node
      typed-AreTypedLines node_here

on_message-command_example :
    (text : Text) × (build_request_from_command 9 (codes "users" ++ arguments_of users)
      ≡ built text)
    × (on_message counting clock 5 1 text node
        ≡ ([], handle_object counting clock 5 1 (timed_object 9 (request_of users)) node))
on_message-command_example =
    on_message-command counting clock 5 1 9 (codes "users") users node users_word users_name tt
      node_here

abbrev inputs : List Input
inputs =
    opens 1
    ∷ opens 2
    ∷ receives 1 5 bytes
    ∷ interval
    ∷ receives 1 6 (codes "pe\":1}" ++ 0x0a ∷ [])
    ∷ closes 1
    ∷ []

inputs-OpensNew : OpensNew counting clock (started_world 0) inputs
unfolding open_connection connection_opened react
inputs-OpensNew = (refl, (refl, tt))

live-IsLive_example :
    IsLive
      (live counting clock (started_world 0) inputs).node
      (live counting clock (started_world 0) inputs).printed
live-IsLive_example = live-IsLive counting clock 0 inputs inputs-OpensNew
