-- ===== src/TerminalClient.antt =====
-- The terminal client: client/main.cc, which reads what a user types, and client/ChatClient.cc, which
-- sends it and prints what the server answers.
pub mod Session
use chat_service.Base.{
  ℕ, zero, suc, Text, Bool, true, false, List, [], ◌∷◌, ◌++◌, Option, none, some, codes, text_eq,
  length, if◌then◌else◌,
}
use chat_service.Commands.Build.{Built, built, refused, unfinished, build_request_from_command}
use chat_service.Server.Lines.Split.{take_line, strip_return}

-- Whether there is a connection, what went out on it, and what was printed, each in its order.
pub record ChatClient : Type 0 where
  pub connected : Bool
  pub sent : List Text
  pub printed : List Text

abbrev print : Text → ChatClient → ChatClient
print line c = record c { printed = c.printed ++ line ∷ [] }

-- `ChatClient::write`
unfoldable pub write : Text → ChatClient → ChatClient
write message c =
    if c.connected
    then record c { sent = c.sent ++ message ∷ [] }
    else print (codes "Not connected to server yet.") c

-- `ChatClient::onConnection`: connected to a peer, or disconnected.
unfoldable pub on_connection : Option Text → ChatClient → ChatClient
on_connection (some peer) c = print (codes "Connected to " ++ peer) (record c { connected = true })
on_connection none c = print (codes "Disconnected from server.") (record c { connected = false })

-- The loop of `ChatClient::onMessage`.
unfoldable pub print_loop : ℕ → Text → ChatClient → Text × ChatClient
unfolding take_line strip_return
print_loop zero buffer c = (buffer, c)
print_loop (suc fuel) buffer c = elim (take_line buffer) [
  | none ↦ (buffer, c)
  | some (message, rest) ↦ print_loop fuel rest (print (codes "server: " ++ strip_return message) c)
]

unfoldable pub on_message : Text → ChatClient → Text × ChatClient
unfolding print_loop
on_message buffer c = print_loop (suc (length buffer)) buffer c

-- A typed line, as a request or an error.
unfoldable pub submit : Built → ChatClient → ChatClient
unfolding write
submit (built request) c = write request c
submit (refused error) c = print (codes "client: " ++ error) c
submit unfinished c = c

-- The loop of `main` over the typed lines, with the time at each.
unfoldable pub type_lines : (ℕ → ℕ) → ℕ → List Text → ChatClient → ChatClient
unfolding submit build_request_from_command text_eq
type_lines clock tick [] c = c
type_lines clock tick (line ∷ lines) c =
    let typed =
      type_lines clock (suc tick) lines (submit (build_request_from_command (clock tick) line) c) in
    if text_eq line (codes "/quit") then c else typed
