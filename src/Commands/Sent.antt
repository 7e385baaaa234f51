-- ===== src/Commands/Sent.antt =====
-- What `buildRequestFromCommand` of common/Protocol.cc may hand out: a JSON text that the user typed,
-- or the line of an object.
use chat_service.Base.{
  ℕ, Text, Bool, true, false, Option, none, some, [], ◌∷◌, ◌++◌, is_empty, insert, text_eq, codes,
  ◌==◌, ◌≡◌, refl, Bool-cases, IsSorted, insert-IsSorted, if◌then◌else◌, inl, inr, ◌⊎◌,
}
use chat_service.Commands.Build.{
  Built, built, refused, unfinished, timed_object, finish_object, build_plain, build_named,
  build_message, with_limit, named_after, message_after, history_after, command_after,
  build_history, build_command, build_json, build_typed, build_trimmed, build_request_from_command,
}
use chat_service.Commands.Tokens.{
  to_upper_copy, read_token, has_extra_text, trim_copy, rest_of_line,
}
use chat_service.Json.Parsed.{Parsed}
use chat_service.Json.{JsonObject, ok, err, out_of_fuel, parse_json_object, make_json_line}

-- If there is a line, it is that of an object in the order of its keys.
abbrev SendsObject : Built → Type 0
SendsObject (built text) = (m : JsonObject) × IsSorted m × (text ≡ make_json_line m)
SendsObject (refused e) = Unit {0}
SendsObject unfinished = Unit {0}

-- If there is a line, it is that of an object or the text itself, which the reader accepts.
abbrev pub Sends : Text → Built → Type 0
Sends trimmed (built text) =
    ((m : JsonObject) × IsSorted m × (text ≡ make_json_line m))
    ⊎ ((m : JsonObject) × (rest : Text) × (parse_json_object trimmed ≡ ok m rest)
        × (text ≡ trimmed ++ 0x0a ∷ []))
Sends trimmed (refused e) = Unit {0}
Sends trimmed unfinished = Unit {0}

SendsObject-if :
    (x y : Built) (b : Bool) → SendsObject x → SendsObject y → SendsObject (if b then x else y)
SendsObject-if x y true h k = h
SendsObject-if x y false h k = k

Sends-object : (trimmed : Text) (b : Built) → SendsObject b → Sends trimmed b
Sends-object trimmed (built text) h = inl h
Sends-object trimmed (refused e) h = tt
Sends-object trimmed unfinished h = tt

type-IsSorted : (type : Text) → IsSorted {V = Text} (insert (codes "type") type [])
unfolding insert
type-IsSorted type = (tt, tt)

module _ (now : ℕ) where
  finish-Sends : (m : JsonObject) → IsSorted m → SendsObject (finish_object now m)
  unfolding finish_object
  finish-Sends m s = (timed_object now m, insert-IsSorted _ _ m s, refl)

  plain-Sends : (type usage pos : Text) → SendsObject (build_plain now type usage pos)
  unfolding build_plain
  plain-Sends type usage pos =
      SendsObject-if _ _ (has_extra_text pos) tt (finish-Sends _ (type-IsSorted type))

  named-Sends :
      (type key usage : Text) (o : Option (Text × Text))
      → SendsObject (named_after now type key usage o)
  unfolding named_after
  named-Sends type key usage none = tt
  named-Sends type key usage (some (name, rest)) =
      SendsObject-if _ _ (has_extra_text rest) tt
        (finish-Sends _ (insert-IsSorted key name _ (type-IsSorted type)))

  message-Sends :
      (type key usage : Text) (o : Option (Text × Text))
      → SendsObject (message_after now type key usage o)
  unfolding message_after
  message-Sends type key usage none = tt
  message-Sends type key usage (some (name, rest)) =
      SendsObject-if _ _ (is_empty (rest_of_line rest)) tt
        (finish-Sends _ (insert-IsSorted _ _ _ (insert-IsSorted key name _ (type-IsSorted type))))

  limit-Sends :
      (m : JsonObject) (usage : Text) (o : Option (Text × Text)) (rest : Text)
      → IsSorted m
      → SendsObject (with_limit now m usage o rest)
  unfolding with_limit
  limit-Sends m usage none rest s = SendsObject-if _ _ (has_extra_text rest) tt (finish-Sends m s)
  limit-Sends m usage (some (l, end)) rest s =
      SendsObject-if _ _ (has_extra_text end) tt (finish-Sends _ (insert-IsSorted _ l m s))

  history-Sends :
      (type key usage : Text) (o : Option (Text × Text))
      → SendsObject (history_after now type key usage o)
  unfolding history_after
  history-Sends type key usage none = tt
  history-Sends type key usage (some (name, rest)) =
      limit-Sends _ usage (read_token rest) rest (insert-IsSorted key name _ (type-IsSorted type))

  command-Sends : (command pos : Text) → SendsObject (build_command now command pos)
  unfolding build_command build_named build_message build_history
  command-Sends command pos =
      let o = read_token pos in
      SendsObject-if _ _ (text_eq command (codes "LOGIN")) (named-Sends _ _ _ o) (
        SendsObject-if _ _ (text_eq command (codes "LOGOUT")) (plain-Sends _ _ pos) (
          SendsObject-if _ _ (text_eq command (codes "USERS")) (plain-Sends _ _ pos) (
            SendsObject-if _ _ (text_eq command (codes "PRIVATE")) (message-Sends _ _ _ o) (
              SendsObject-if _ _ (text_eq command (codes "CREATE_ROOM")) (named-Sends _ _ _ o) (
                SendsObject-if _ _ (text_eq command (codes "JOIN")) (named-Sends _ _ _ o) (
                  SendsObject-if _ _ (text_eq command (codes "LEAVE")) (named-Sends _ _ _ o) (
                    SendsObject-if _ _ (text_eq command (codes "ROOM_MSG")) (message-Sends _ _ _ o)
                      (SendsObject-if _ _ (text_eq command (codes "HISTORY_PRIVATE"))
                        (history-Sends _ _ _ o)
                        (SendsObject-if _ _ (text_eq command (codes "HISTORY_ROOM"))
                          (history-Sends _ _ _ o) tt)))))))))

  typed-Sends : (o : Option (Text × Text)) → SendsObject (command_after now o)
  unfolding command_after
  typed-Sends none = tt
  typed-Sends (some (command, pos)) = command-Sends (to_upper_copy command) pos

  json-Sends : (trimmed : Text) → Sends trimmed (build_json now trimmed)
  unfolding build_json
  json-Sends trimmed = outcome (parse_json_object trimmed) refl
    where
      outcome :
          (p : Parsed JsonObject)
          → parse_json_object trimmed ≡ p
          → Sends trimmed (elim p [
            | ok object rest ↦ built (trimmed ++ 0x0a ∷ [])
            | err e ↦ refused e
            | out_of_fuel ↦ unfinished
          ])
      outcome (ok object rest) h = inr (object, rest, h, refl)
      outcome (err e) h = tt
      outcome out_of_fuel h = tt

  trimmed-Sends : (trimmed : Text) → Sends trimmed (build_trimmed now trimmed)
  unfolding build_trimmed build_typed
  trimmed-Sends [] = tt
  trimmed-Sends (c ∷ s) = elim (Bool-cases (c == b'{')) [
    | inl e ↦ rw e (json-Sends (c ∷ s))
    | inr e ↦ rw e (Sends-object (c ∷ s) _ (typed-Sends (read_token (c ∷ s))))
  ]

  pub build_request-Sends :
      (line : Text) → Sends (trim_copy line) (build_request_from_command now line)
  unfolding build_request_from_command
  build_request-Sends line = trimmed-Sends (trim_copy line)
