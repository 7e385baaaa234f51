-- ===== src/Commands/Typed.antt =====
-- The command language as a type: how each command is written, and the request that it stands for.
pub mod Language
pub use Language.*
use mathlib.Core.List.{append-nil}
use chat_service.Base.{
  ◌&&◌, IsSorted, insert-IsSorted, ℕ, Text, Bool, true, false, Option, none, some, [], ◌∷◌, ◌++◌,
  is_empty, insert, text_eq, codes, leb, ◌==◌, ◌≡◌, refl, ap, ◌∙◌, arith,
}
use chat_service.Commands.Build.{
  Built, built, timed_object, build_plain, build_named, build_message, with_limit, named_after,
  message_after, history_after, command_after, build_history, build_command, build_typed,
  build_trimmed, build_request_from_command,
}
use chat_service.Commands.Tokens.{to_upper_copy, read_token, has_extra_text, trim_right}
use chat_service.Commands.Words.{
  IsToken, IsTrimmed, read_token-append, read_token-end, read_token-last, read_token-next,
  rest_of_line-trimmed, trim_copy-line, trim_right-last, trim_right-next, IsToken-trim_right,
  trim_copy-trim_right,
}
use chat_service.Json.{JsonObject, make_json_line, skip_whitespace}

no_extra : has_extra_text [] ≡ false
unfolding has_extra_text skip_whitespace is_empty
no_extra = refl

read_token-nil : read_token [] ≡ none
unfolding read_token skip_whitespace
read_token-nil = refl

-- Names begin with capitals.
abbrev pub starts_in_capitals : Text → Bool
starts_in_capitals [] = false
starts_in_capitals (c ∷ s) = leb b'A' c && leb c b'Z'

pub capitals : (c : Command) → starts_in_capitals (name_of c) ≡ true
unfolding codes
capitals logout = refl
capitals users = refl
capitals (login u) = refl
capitals (create_room r) = refl
capitals (join r) = refl
capitals (leave r) = refl
capitals (private u m) = refl
capitals (room_msg r m) = refl
capitals (history_private u l) = refl
capitals (history_room r l) = refl

limited :
    (u : Text) (l : Option Text)
    → IsToken u
    → IsLimit l
    → trim_right (0x20 ∷ u ++ limit_text l) ≡ 0x20 ∷ u ++ limit_text l
limited u none h k = rw (append-nil u) (trim_right-last u h)
limited u (some l) h k = trim_right-next u l h k.0 (IsToken-trim_right l k)

module _ (now : ℕ) where
  abbrev sent : JsonObject → Built
  sent object = built (make_json_line (timed_object now object))

  plain-sent : (type usage : Text) → build_plain now type usage [] ≡ sent (plain type)
  unfolding build_plain
  plain-sent type usage = rw no_extra refl

  named-sent :
      (type key usage u : Text)
      → IsToken u
      → build_named now type key usage (0x20 ∷ u) ≡ sent (insert key u (plain type))
  unfolding build_named
  named-sent type key usage u h =
      ap (named_after now type key usage) (read_token-last u h) ∙ rw (no_extra, named_after) refl

  message-sent :
      (type key usage u m : Text)
      → IsToken u
      → IsTrimmed m
      → build_message now type key usage (0x20 ∷ u ++ 0x20 ∷ m)
        ≡ sent (insert (codes "message") m (insert key u (plain type)))
  unfolding build_message
  message-sent type key usage u m h k =
      ap (message_after now type key usage) (read_token-next u m h)
      ∙ rw (rest_of_line-trimmed m k, k.0, message_after) refl

  history-sent :
      (type key usage u : Text) (l : Option Text)
      → IsToken u
      → IsLimit l
      → build_history now type key usage (0x20 ∷ u ++ limit_text l)
        ≡ sent (with_option l (insert key u (plain type)))
  unfolding build_history
  history-sent type key usage u none h k =
      ap (λ x. history_after now type key usage (read_token (0x20 ∷ x))) (append-nil u)
      ∙ ap (history_after now type key usage) (read_token-last u h)
      ∙ ap (λ r. with_limit now (insert key u (plain type)) usage r []) read_token-nil
      ∙ rw (no_extra, with_limit) refl
  history-sent type key usage u (some l) h k =
      ap (history_after now type key usage) (read_token-next u l h)
      ∙ ap (λ r. with_limit now (insert key u (plain type)) usage r (0x20 ∷ l))
          (read_token-last l k)
      ∙ rw (no_extra, with_limit) refl

  -- Behind a name in capitals.
  command-sent :
      (c : Command)
      → IsWritable c
      → build_command now (name_of c) (arguments_of c) ≡ sent (request_of c)
  unfolding build_command text_eq codes
  command-sent logout h = plain-sent (codes "logout") (codes "usage: LOGOUT")
  command-sent users h = plain-sent (codes "users") (codes "usage: USERS")
  command-sent (login u) h = named-sent _ _ _ u h
  command-sent (create_room r) h = named-sent _ _ _ r h
  command-sent (join r) h = named-sent _ _ _ r h
  command-sent (leave r) h = named-sent _ _ _ r h
  command-sent (private u m) h = message-sent _ _ _ u m h.0 h.1
  command-sent (room_msg r m) h = message-sent _ _ _ r m h.0 h.1
  command-sent (history_private u l) h = history-sent _ _ _ u l h.0 h.1
  command-sent (history_room r l) h = history-sent _ _ _ r l h.0 h.1

  arguments-trimmed : (c : Command) → IsWritable c → trim_right (arguments_of c) ≡ arguments_of c
  unfolding trim_right
  arguments-trimmed logout h = refl
  arguments-trimmed users h = refl
  arguments-trimmed (login u) h = trim_right-last u h
  arguments-trimmed (create_room r) h = trim_right-last r h
  arguments-trimmed (join r) h = trim_right-last r h
  arguments-trimmed (leave r) h = trim_right-last r h
  arguments-trimmed (private u m) h = trim_right-next u m h.0 h.1.0 (trim_copy-trim_right m h.1.1)
  arguments-trimmed (room_msg r m) h = trim_right-next r m h.0 h.1.0 (trim_copy-trim_right m h.1.1)
  arguments-trimmed (history_private u l) h = limited u l h.0 h.1
  arguments-trimmed (history_room r l) h = limited r l h.0 h.1

  -- The word that is read first, whatever stands behind it.
  read_token-command :
      (w : Text) (c : Command)
      → IsToken w
      → read_token (w ++ arguments_of c) ≡ some (w, arguments_of c)
  read_token-command w logout h = ap read_token (append-nil w) ∙ read_token-end w h
  read_token-command w users h = ap read_token (append-nil w) ∙ read_token-end w h
  read_token-command w (login u) h = read_token-append w u h
  read_token-command w (create_room r) h = read_token-append w r h
  read_token-command w (join r) h = read_token-append w r h
  read_token-command w (leave r) h = read_token-append w r h
  read_token-command w (private u m) h = read_token-append w (u ++ 0x20 ∷ m) h
  read_token-command w (room_msg r m) h = read_token-append w (r ++ 0x20 ∷ m) h
  read_token-command w (history_private u l) h = read_token-append w (u ++ limit_text l) h
  read_token-command w (history_room r l) h = read_token-append w (r ++ limit_text l) h

  build_trimmed-word :
      (w t : Text)
      → IsToken w
      → starts_in_capitals (to_upper_copy w) ≡ true
      → build_trimmed now (w ++ t) ≡ command_after now (read_token (w ++ t))
  unfolding build_trimmed build_typed to_upper_copy is_empty
  build_trimmed-word [] t h k = absurd (ground arith)
  build_trimmed-word (a ∷ w) t h k = let low : (a == b'{') ≡ false = ground arith in rw low refl

  -- A command that is typed with its name in any mixture of capitals and small letters, names and
  -- limits as words and the message trimmed and not empty, becomes the line of the request that it
  -- stands for, with the time in it.
  pub build_request-command :
      (w : Text) (c : Command)
      → IsToken w
      → to_upper_copy w ≡ name_of c
      → IsWritable c
      → build_request_from_command now (w ++ arguments_of c)
        ≡ built (make_json_line (timed_object now (request_of c)))
  unfolding build_request_from_command
  build_request-command w c h e k =
      ap (build_trimmed now) (trim_copy-line w (arguments_of c) h (arguments-trimmed c k))
      ∙ build_trimmed-word w (arguments_of c) h (ap starts_in_capitals e ∙ capitals c)
      ∙ ap (command_after now) (read_token-command w c h)
      ∙ ap (λ n. build_command now n (arguments_of c)) e
      ∙ command-sent c k

plain-IsSorted : (type : Text) → IsSorted {V = Text} (plain type)
plain-IsSorted type = insert-IsSorted (codes "type") type [] tt

option-IsSorted :
    (l : Option Text) (m : JsonObject) → IsSorted m → IsSorted {V = Text} (with_option l m)
option-IsSorted none m s = s
option-IsSorted (some l) m s = insert-IsSorted (codes "limit") l m s

object-IsSorted : (c : Command) → IsSorted {V = Text} (request_of c)
object-IsSorted logout = plain-IsSorted (codes "logout")
object-IsSorted users = plain-IsSorted (codes "users")
object-IsSorted (login u) = insert-IsSorted _ u _ (plain-IsSorted (codes "login"))
object-IsSorted (create_room r) = insert-IsSorted _ r _ (plain-IsSorted (codes "create_room"))
object-IsSorted (join r) = insert-IsSorted _ r _ (plain-IsSorted (codes "join"))
object-IsSorted (leave r) = insert-IsSorted _ r _ (plain-IsSorted (codes "leave"))
object-IsSorted (private u m) =
    insert-IsSorted _ m _ (insert-IsSorted (codes "target") u _ (plain-IsSorted (codes "private")))
object-IsSorted (room_msg r m) =
    insert-IsSorted _ m _ (insert-IsSorted (codes "room") r _ (plain-IsSorted (codes "room_msg")))
object-IsSorted (history_private u l) =
    option-IsSorted l _ (insert-IsSorted _ u _ (plain-IsSorted (codes "history_private")))
object-IsSorted (history_room r l) =
    option-IsSorted l _ (insert-IsSorted _ r _ (plain-IsSorted (codes "history_room")))

pub request-IsSorted : (now : ℕ) (c : Command) → IsSorted (timed_object now (request_of c))
request-IsSorted now c = insert-IsSorted _ _ (request_of c) (object-IsSorted c)
