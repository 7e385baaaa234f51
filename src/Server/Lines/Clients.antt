-- ===== src/Server/Lines/Clients.antt =====
-- The two ends of a connection: what `buildRequestFromCommand` of common/Protocol.cc sends is what
-- `ChatServer::onMessage` of server/ChatServer.cc reads.
use chat_service.Base.{
  ℕ, Text, true, is_some, [], ◌∷◌, ◌++◌, is_empty, ◌≡◌, inl, inr, refl, ap, ◌∙◌, arith, List-cases,
  IsSorted,
}
use chat_service.Commands.Build.{built, timed_object, build_request_from_command}
use chat_service.Commands.Typed.{
  Command, name_of, arguments_of, request_of, IsWritable, build_request-command, request-IsSorted,
}
use chat_service.Commands.Words.{IsToken}
use chat_service.Commands.Tokens.{to_upper_copy, trim_left, trim_right}
use chat_service.Json.{JsonObject, ok, parse_json_object, serialize_json_object, make_json_line}
use chat_service.Json.Framing.{HasNoControl, serialize-HasNoControl}
use chat_service.Json.RoundTrip.{parse-serialize}
use chat_service.Server.Lines.Chunks.{handle_lines, on_message-lines, check_rest-short}
use chat_service.Server.Lines.Loop.{
  Reading, Node, handle_object, handle_parsed, handle_text, handle_line, on_message,
}
use chat_service.Server.Lines.Split.{HasNoBreak, lines_of-line, strip_return}
use chat_service.Server.State.{Storage}
use chat_service.UserManager.{Connection}

pub HasNoControl-HasNoBreak : (s : Text) → HasNoControl s → HasNoBreak s
HasNoControl-HasNoBreak [] h = tt
HasNoControl-HasNoBreak (c ∷ s) h = (ground arith, HasNoControl-HasNoBreak s h.1)

pub HasNoControl-strip_return : (s : Text) → HasNoControl s → strip_return s ≡ s
unfolding strip_return
HasNoControl-strip_return [] h = refl
HasNoControl-strip_return (c ∷ []) h = ground arith
HasNoControl-strip_return (c ∷ d ∷ s) h = ap (λ t. c ∷ t) (HasNoControl-strip_return (d ∷ s) h.1)

pub trim_left-HasNoBreak : (s : Text) → HasNoBreak s → HasNoBreak (trim_left s)
unfolding trim_left
trim_left-HasNoBreak [] h = tt
trim_left-HasNoBreak (c ∷ s) h = ground (arith, trim_left-HasNoBreak s h.1)

pub trim_right-HasNoBreak : (s : Text) → HasNoBreak s → HasNoBreak (trim_right s)
unfolding trim_right
trim_right-HasNoBreak [] h = tt
trim_right-HasNoBreak (c ∷ s) h = ground (arith, trim_right-HasNoBreak s h.1)

pub trim_right-strip_return : (s : Text) → strip_return (trim_right s) ≡ trim_right s
unfolding trim_right strip_return is_empty
trim_right-strip_return [] = refl
trim_right-strip_return (c ∷ s) = elim (List-cases (trim_right s)) [
  | inl k ↦ ground (arith, k)
  | inr (d, t, k) ↦ ground (arith, k, trim_right-strip_return s)
]

module _ {St : Type 0} (db : Storage St) (clock : ℕ → Reading) (t : ℕ) (c : Connection) where
  pub handle_text-ok :
      (body rest : Text) (m : JsonObject) (n : Node St)
      → parse_json_object body ≡ ok m rest
      → handle_text db clock t c body n ≡ handle_object db clock t c m n
  unfolding handle_text
  handle_text-ok [] rest m n h = absurd (unfold parse_json_object in ground arith)
  handle_text-ok (b ∷ body) rest m n h =
      ap (λ p. handle_parsed db clock t c p n) h ∙ unfold handle_parsed in refl

  -- A line that the reader accepts, with its end.
  pub on_message-line :
      (body rest : Text) (m : JsonObject) (n : Node St)
      → HasNoBreak body
      → strip_return body ≡ body
      → parse_json_object body ≡ ok m rest
      → is_some (n.server.sessions c) ≡ true
      → on_message db clock t c (body ++ 0x0a ∷ []) n ≡ ([], handle_object db clock t c m n)
  unfolding handle_lines handle_line
  on_message-line body rest m n one stripped h here =
      let cut = lines_of-line body one in
      on_message-lines db clock c t (body ++ 0x0a ∷ []) n here
      ∙ rw (cut.0, cut.1)
          (check_rest-short db clock c t [] _ (omega arith)
            ∙ ap (λ x. ([], handle_text db clock t c x n)) stripped
            ∙ ap (λ x. ([], x)) (handle_text-ok body rest m n h))

  -- The line of an object, whose keys are in order.
  pub on_message-make_json_line :
      (m : JsonObject) (n : Node St)
      → IsSorted m
      → is_some (n.server.sessions c) ≡ true
      → on_message db clock t c (make_json_line m) n ≡ ([], handle_object db clock t c m n)
  unfolding make_json_line
  on_message-make_json_line m n s here =
      let clean = serialize-HasNoControl m in
      on_message-line (serialize_json_object m) [] m n
        (HasNoControl-HasNoBreak (serialize_json_object m) clean)
        (HasNoControl-strip_return (serialize_json_object m) clean) (parse-serialize m s) here

  -- A command that is typed with its name in any mixture of capitals and small letters, names and
  -- limits as words and the message trimmed and not empty, is handled by the server as the one request
  -- that it stands for, with the time of the client in it, and nothing is left in the buffer.
  pub on_message-command :
      (now : ℕ) (w : Text) (command : Command) (n : Node St)
      → IsToken w
      → to_upper_copy w ≡ name_of command
      → IsWritable command
      → is_some (n.server.sessions c) ≡ true
      → (text : Text) × (build_request_from_command now (w ++ arguments_of command) ≡ built text)
        × (on_message db clock t c text n
            ≡ ([], handle_object db clock t c (timed_object now (request_of command)) n))
  on_message-command now w command n word name writable here = (
    make_json_line (timed_object now (request_of command)),
    build_request-command now w command word name writable,
    on_message-make_json_line (timed_object now (request_of command)) n
        (request-IsSorted now command) here,
  )
