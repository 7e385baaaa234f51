-- ===== src/TerminalClient/Session.antt =====
-- What a user of the terminal client types, from client/main.cc to the handlers of the server.
pub mod Requests
pub use Requests.*
use mathlib.Core.List.{append_assoc, append-nil}
use chat_service.Base.{
  ℕ, suc, Text, true, List, [], ◌∷◌, ◌++◌, map, IsSorted, false, is_empty, ◌==◌, is_some, codes,
  text_eq, length, Every, subst, ◌≡◌, refl, sym, ap, ◌∙◌, arith, inl, inr, Bool-cases,
}
use chat_service.Commands.Build.{
  Built, built, refused, unfinished, timed_object, build_trimmed, build_json,
  build_request_from_command,
}
use chat_service.Commands.Typed.{
  Command, name_of, arguments_of, request_of, IsWritable, starts_in_capitals, capitals,
  build_request-command, request-IsSorted,
}
use chat_service.Commands.Words.{IsToken}
use chat_service.Commands.Tokens.{to_upper_copy, trim_left, trim_right, trim_copy}
use chat_service.Json.{JsonObject, ok, parse_json_object, serialize_json_object, make_json_line}
use chat_service.Json.{err, out_of_fuel}
use chat_service.Json.Printer.{all_fields}
use chat_service.Json.Framing.{serialize-HasNoControl}
use chat_service.Json.RoundTrip.{parse-serialize}
use chat_service.Server.Lines.Chunks.{handle_lines, on_message-lines, check_rest-short}
use chat_service.Server.Lines.Clients.{
  HasNoControl-HasNoBreak, HasNoControl-strip_return, handle_text-ok,
}
use chat_service.Server.Lines.Loop.{
  Reading, Node, handle_object, handle_text, handle_line, on_message,
}
use chat_service.Server.Lines.Split.{
  HasNoBreak, lines_of, rest_of, lines_of-line, lines_of-append, strip_return,
}
use chat_service.Server.State.{Storage}
use chat_service.TerminalClient.{ChatClient, submit, write, type_lines}
use chat_service.UserManager.{Connection}

-- What a user types in a line: a command by its name `w`, a request as it is printed, or anything that
-- the client refuses.
pub data TypedLine : Type 0 where
  command : Text → Command → TypedLine
  object : JsonObject → TypedLine
  other : Text → TypedLine

abbrev pub line_of : TypedLine → Text
line_of (command w c) = w ++ arguments_of c
line_of (object m) = serialize_json_object m
line_of (other line) = line

-- The conditions on a line that is typed at a time.
abbrev pub IsTypedLine : ℕ → TypedLine → Type 0
IsTypedLine now (command w c) = IsToken w × (to_upper_copy w ≡ name_of c) × IsWritable c
IsTypedLine now (object m) = IsSorted m
IsTypedLine now (other line) =
    (text_eq line (codes "/quit") ≡ false)
    × ((e : Text) × (build_request_from_command now line ≡ refused e))

abbrev pub AreTypedLines : (ℕ → ℕ) → ℕ → List TypedLine → Type 0
AreTypedLines times tick [] = Unit {0}
AreTypedLines times tick (i ∷ is) = IsTypedLine (times tick) i × AreTypedLines times (suc tick) is

-- The requests that are meant, in their order; that of a command has the time in it.
abbrev pub requests_of : (ℕ → ℕ) → ℕ → List TypedLine → List JsonObject
requests_of times tick [] = []
requests_of times tick (command w c ∷ is) =
    timed_object (times tick) (request_of c) ∷ requests_of times (suc tick) is
requests_of times tick (object m ∷ is) = m ∷ requests_of times (suc tick) is
requests_of times tick (other line ∷ is) = requests_of times (suc tick) is

requests-IsSorted :
    (times : ℕ → ℕ) (tick : ℕ) (is : List TypedLine)
    → AreTypedLines times tick is
    → Every (λ m. IsSorted {V = Text} m) (requests_of times tick is)
requests-IsSorted times tick [] a = tt
requests-IsSorted times tick (command w c ∷ is) a =
    (request-IsSorted (times tick) c, requests-IsSorted times (suc tick) is a.1)
requests-IsSorted times tick (object m ∷ is) a = (a.0, requests-IsSorted times (suc tick) is a.1)
requests-IsSorted times tick (other line ∷ is) a = requests-IsSorted times (suc tick) is a.1

-- A command does not end the client, nor does an object.
command-ne-quit :
    (w args : Text)
    → IsToken w
    → starts_in_capitals (to_upper_copy w) ≡ true
    → text_eq (w ++ args) (codes "/quit") ≡ false
unfolding to_upper_copy text_eq codes is_empty
command-ne-quit [] args h k = absurd (ground arith)
command-ne-quit (a ∷ w) args h k = let slash : (a == b'/') ≡ false = ground arith in rw slash refl

object-ne-quit : (m : JsonObject) → text_eq (serialize_json_object m) (codes "/quit") ≡ false
unfolding serialize_json_object text_eq codes
object-ne-quit m = refl

is_empty-brace : (s : Text) → is_empty (s ++ b'}' ∷ []) ≡ false
unfolding is_empty
is_empty-brace [] = refl
is_empty-brace (c ∷ s) = refl

trim_right-brace : (s : Text) → trim_right (s ++ b'}' ∷ []) ≡ s ++ b'}' ∷ []
unfolding trim_right is_empty
trim_right-brace [] = refl
trim_right-brace (c ∷ s) = ground (arith, trim_right-brace s, is_empty-brace s)

object-trimmed : (m : JsonObject) → trim_copy (serialize_json_object m) ≡ serialize_json_object m
unfolding trim_copy trim_left serialize_json_object
object-trimmed m = trim_right-brace (b'{' ∷ all_fields m)

object-checked :
    (now : ℕ) (m : JsonObject)
    → IsSorted m
    → build_trimmed now (serialize_json_object m) ≡ built (make_json_line m)
unfolding build_trimmed build_json make_json_line serialize_json_object
object-checked now m s =
    ap
      (λ p. elim p [
        | ok found rest ↦ built (serialize_json_object m ++ 0x0a ∷ [])
        | err e ↦ refused e
        | out_of_fuel ↦ unfinished
      ])
      (parse-serialize m s)

object-built :
    (now : ℕ) (m : JsonObject)
    → IsSorted m
    → build_request_from_command now (serialize_json_object m) ≡ built (make_json_line m)
unfolding build_request_from_command
object-built now m s = ap (build_trimmed now) (object-trimmed m) ∙ object-checked now m s

-- One line.
type_line :
    (times : ℕ → ℕ) (tick : ℕ) (line : Text) (lines : List Text) (c : ChatClient) (b : Built)
    → text_eq line (codes "/quit") ≡ false
    → build_request_from_command (times tick) line ≡ b
    → type_lines times tick (line ∷ lines) c ≡ type_lines times (suc tick) lines (submit b c)
unfolding type_lines
type_line times tick line lines c b k h =
    rw k (ap (λ x. type_lines times (suc tick) lines (submit x c)) h)

type_built :
    (times : ℕ → ℕ) (tick : ℕ) (line text : Text) (lines : List Text) (c : ChatClient)
    → c.connected ≡ true
    → text_eq line (codes "/quit") ≡ false
    → build_request_from_command (times tick) line ≡ built text
    → type_lines times tick (line ∷ lines) c
      ≡ type_lines times (suc tick) lines (record c { sent = c.sent ++ text ∷ [] })
unfolding submit write
type_built times tick line text lines c on k h =
    type_line times tick line lines c (built text) k h ∙ rw on refl

-- The text of `/quit` ends the client.
type_quit :
    (times : ℕ → ℕ) (tick : ℕ) (behind : List Text) (c : ChatClient)
    → type_lines times tick (codes "/quit" ∷ behind) c ≡ c
unfolding type_lines text_eq codes
type_quit times tick behind c = refl

abbrev pub typed_lines : List TypedLine → List Text → List Text
typed_lines is behind = map line_of is ++ codes "/quit" ∷ behind

sent_next :
    (sent : List Text) (m : JsonObject) (ms : List JsonObject)
    → (sent ++ make_json_line m ∷ []) ++ map make_json_line ms ≡ sent ++ map make_json_line (m ∷ ms)
sent_next sent m ms = append_assoc sent (make_json_line m ∷ []) (map make_json_line ms)

type_lines-sent :
    (times : ℕ → ℕ) (tick : ℕ) (is : List TypedLine) (behind : List Text) (c : ChatClient)
    → AreTypedLines times tick is
    → c.connected ≡ true
    → (type_lines times tick (typed_lines is behind) c).sent
      ≡ c.sent ++ map make_json_line (requests_of times tick is)
type_lines-sent times tick [] behind c a on =
    ap (λ d. d.sent) (type_quit times tick behind c) ∙ sym (append-nil c.sent)
type_lines-sent times tick (command w k ∷ is) behind c a on =
    let m = timed_object (times tick) (request_of k) in
    let d : ChatClient = record c { sent = c.sent ++ make_json_line m ∷ [] } in
    ap (λ d. d.sent)
      (type_built times tick (w ++ arguments_of k) (make_json_line m) (typed_lines is behind) c on
        (command-ne-quit w (arguments_of k) a.0.0 (ap starts_in_capitals a.0.1 ∙ capitals k))
        (build_request-command (times tick) w k a.0.0 a.0.1 a.0.2))
    ∙ type_lines-sent times (suc tick) is behind d a.1 on
    ∙ sent_next c.sent m (requests_of times (suc tick) is)
type_lines-sent times tick (object m ∷ is) behind c a on =
    let d : ChatClient = record c { sent = c.sent ++ make_json_line m ∷ [] } in
    ap (λ d. d.sent)
      (type_built times tick (serialize_json_object m) (make_json_line m) (typed_lines is behind) c
        on (object-ne-quit m) (object-built (times tick) m a.0))
    ∙ type_lines-sent times (suc tick) is behind d a.1 on
    ∙ sent_next c.sent m (requests_of times (suc tick) is)
type_lines-sent times tick (other line ∷ is) behind c a on =
    let (e, h) = a.0.1 in
    ap (λ d. d.sent) (type_line times tick line (typed_lines is behind) c (refused e) a.0.0 h)
    ∙ type_lines-sent times (suc tick) is behind (submit (refused e) c) a.1 (unfold submit in on)
    ∙ unfold submit in refl

abbrev pub new_client : ChatClient
new_client = record { connected = true; sent = []; printed = [] }

module _ {St : Type 0} (db : Storage St) (clock : ℕ → Reading) (t : ℕ) (c : Connection) where
  -- A user types lines into a client that is connected and then `/quit`: commands, each with its name in
  -- any mixture of capitals and small letters, its names and limits as words and its message trimmed
  -- and not empty; objects as they are printed; and lines that the client refuses. If all that the client
  -- sends arrives at once on a connection with a session, then the server handles the requests that
  -- the commands and the objects stand for, those and no others, in the order in which they were
  -- typed, those of commands with the time of the client in them, and nothing is left in the buffer.
  -- What is typed behind `/quit` has no effect.
  pub on_message-type_lines :
      (times : ℕ → ℕ) (is : List TypedLine) (behind : List Text) (n : Node St)
      → AreTypedLines times 0 is
      → is_some (n.server.sessions c) ≡ true
      → on_message db clock t c
          (joined (type_lines times 0 (typed_lines is behind) new_client).sent)
          n
        ≡ ([], handle_objects db clock t c (requests_of times 0 is) n)
  on_message-type_lines times is behind n a here =
      let ms = requests_of times 0 is in
      let texts = map make_json_line ms in
      let (e, f) =
        requests-handled db clock t c texts ms n
          (AreRequestLines-sorted ms (requests-IsSorted times 0 is a)) in
      ap (λ s. on_message db clock t c (joined s) n)
        (type_lines-sent times 0 is behind new_client a refl)
      ∙ on_message-lines db clock c t (joined texts) n here
      ∙ rw (e, f) (check_rest-short db clock c t [] _ (omega arith))
