-- ===== src/Names.antt =====
-- The rules for names in common/Protocol.cc (isValidName) and server/ChatServer.cc (isValidCallId).
use chat_service.Base.{
  ℕ, Text, Bool, true, false, ◌&&◌, ◌||◌, [], ◌∷◌, is_empty, length, leb, ltb, ◌==◌, ◌≡◌, arith,
  if◌then◌else◌,
}

-- std::isalnum in the C locale
abbrev pub is_alnum : ℕ → Bool
is_alnum c = (leb b'0' c && leb c b'9') || (leb b'A' c && leb c b'Z') || (leb b'a' c && leb c b'z')

abbrev pub is_name_char : ℕ → Bool
is_name_char c = is_alnum c || c == b'_' || c == b'-' || c == b'.'

-- The loop of both functions.
unfoldable pub all_name_chars : Text → Bool
all_name_chars [] = true
all_name_chars (c ∷ s) = if is_name_char c then all_name_chars s else false

unfoldable pub is_valid_name : Text → Bool
unfolding all_name_chars is_empty
is_valid_name name = if is_empty name || ltb 32 (length name) then false else all_name_chars name

unfoldable pub is_valid_call_id : Text → Bool
unfolding all_name_chars is_empty
is_valid_call_id id = if is_empty id || ltb 128 (length id) then false else all_name_chars id

-- A valid name has at least one character.
pub is_valid_name-nonempty : (name : Text) → is_valid_name name ≡ true → is_empty name ≡ false
unfolding is_valid_name
is_valid_name-nonempty name h = ground arith
