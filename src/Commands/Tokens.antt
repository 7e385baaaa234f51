-- ===== src/Commands/Tokens.antt =====
-- Words and lines of typed commands: the helpers of common/Protocol.cc. A position in a line is the
-- rest of the line.
use chat_service.Base.{
  ℕ, ◌-◌, Text, Bool, not, ◌&&◌, ◌||◌, Option, none, some, [], ◌∷◌, is_empty, leb, ◌==◌,
  if◌then◌else◌,
}
use chat_service.Json.{is_space, skip_whitespace}

-- std::toupper in the C locale
abbrev pub to_upper : ℕ → ℕ
to_upper c = if leb b'a' c && leb c b'z' then c - 32 else c

unfoldable pub to_upper_copy : Text → Text
to_upper_copy [] = []
to_upper_copy (c ∷ s) = to_upper c ∷ to_upper_copy s

-- `skipSpaces` is the loop of `skipWhitespace` of common/Json.cc.
abbrev pub skip_spaces : Text → Text
skip_spaces value = skip_whitespace value

-- The characters up to the next space, and the rest.
unfoldable pub word : Text → Text
word [] = []
word (c ∷ s) = if is_space c then [] else c ∷ word s

unfoldable pub behind_word : Text → Text
behind_word [] = []
behind_word (c ∷ s) = if is_space c then c ∷ s else behind_word s

-- The token and the position behind it.
unfoldable pub token_at : Text → Option (Text × Text)
unfolding word behind_word
token_at [] = none
token_at (c ∷ s) = some (word (c ∷ s), behind_word (c ∷ s))

unfoldable pub read_token : Text → Option (Text × Text)
unfolding token_at
read_token value = token_at (skip_spaces value)

unfoldable pub has_extra_text : Text → Bool
unfolding is_empty
has_extra_text pos = not (is_empty (skip_spaces pos))

-- The characters of " \t\r\n".
abbrev pub is_blank : ℕ → Bool
is_blank c = c == 0x20 || c == 0x09 || c == 0x0d || c == 0x0a

-- From the first character that is not blank.
unfoldable pub trim_left : Text → Text
trim_left [] = []
trim_left (c ∷ s) = if is_blank c then trim_left s else c ∷ s

-- Up to the last character that is not blank.
unfoldable pub trim_right : Text → Text
trim_right [] = []
trim_right (c ∷ s) = let rest = trim_right s in if is_blank c && is_empty rest then [] else c ∷ rest

unfoldable pub trim_copy : Text → Text
unfolding trim_left trim_right
trim_copy value = trim_right (trim_left value)

unfoldable pub rest_of_line : Text → Text
unfolding trim_copy
rest_of_line [] = []
rest_of_line (c ∷ pos) = trim_copy (c ∷ pos)
