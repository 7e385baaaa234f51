-- ===== src/Storage/Conversations.antt =====
-- `privateConversationId` of server/ChatStorage.cc: one name for the two users of a conversation.
use mathlib.Core.List.{append_assoc}
use chat_service.Base.{
  ℕ, zero, suc, Text, true, false, [], ◌∷◌, ◌++◌, codes, text_lt, text_lt_total, text_lt_asymm,
  ◌==◌, ◌≡◌, ◌↔◌, ◌⊎◌, inl, inr, refl, sym, ap, ◌∙◌, arith, Bool-cases,
}
use chat_service.Names.{is_valid_name, all_name_chars}
use chat_service.Storage.{private_conversation_id, c_string}

abbrev HasNoColon : Text → Type 0
HasNoColon [] = Unit {0}
HasNoColon (c ∷ s) = ((c == b':') ≡ false) × HasNoColon s

name_chars-HasNoColon : (s : Text) → all_name_chars s ≡ true → HasNoColon s
unfolding all_name_chars
name_chars-HasNoColon [] h = tt
name_chars-HasNoColon (c ∷ s) h = (ground arith, name_chars-HasNoColon s (ground arith))

valid-HasNoColon : (s : Text) → is_valid_name s ≡ true → HasNoColon s
unfolding is_valid_name
valid-HasNoColon s h = name_chars-HasNoColon s (ground arith)

name_chars-c_string : (s : Text) → all_name_chars s ≡ true → c_string s ≡ s
unfolding all_name_chars c_string
name_chars-c_string [] h = refl
name_chars-c_string (c ∷ s) h = ground (arith, name_chars-c_string s)

-- A valid name has no byte 0.
pub valid-c_string : (s : Text) → is_valid_name s ≡ true → c_string s ≡ s
unfolding is_valid_name
valid-c_string s h = name_chars-c_string s (ground arith)

-- The first colon ends the first name.
split-colon :
    (a c b d : Text)
    → HasNoColon a
    → HasNoColon c
    → a ++ b':' ∷ b ≡ c ++ b':' ∷ d
    → (a ≡ c) × (b ≡ d)
split-colon [] [] b d h k e = (refl, cc)
split-colon [] (y ∷ c) b d h k e = absurd (ground arith)
split-colon (x ∷ a) [] b d h k e = absurd (ground arith)
split-colon (x ∷ a) (y ∷ c) b d h k e =
    let same : a ++ b':' ∷ b ≡ c ++ b':' ∷ d = cc in
    ground (arith, split-colon a c b d h.1 k.1 same)

-- What is behind a prefix of known length.
abbrev drop : ℕ → Text → Text
drop zero s = s
drop (suc n) [] = []
drop (suc n) (c ∷ s) = drop n s

-- The names in order, behind the prefix.
abbrev joined : Text → Text → Text
joined a b = codes "private:" ++ a ++ codes ":" ++ b

joined-names :
    (a b c d : Text)
    → is_valid_name a ≡ true
    → is_valid_name c ≡ true
    → joined a b ≡ joined c d
    → (a ≡ c) × (b ≡ d)
unfolding codes
joined-names a b c d va vc e =
    split-colon a c b d (valid-HasNoColon a va) (valid-HasNoColon c vc)
      (sym (append_assoc a (b':' ∷ []) b) ∙ ap (drop 8) e ∙ append_assoc c (b':' ∷ []) d)

-- Whichever user is named first, the conversation is the same one.
pub private_conversation_id_comm :
    (a b : Text) → private_conversation_id a b ≡ private_conversation_id b a
unfolding private_conversation_id
private_conversation_id_comm a b = elim (Bool-cases (text_lt a b)) [
  | inl h ↦ rw (h, text_lt_asymm a b h) refl
  | inr h ↦ elim (Bool-cases (text_lt b a)) [
    | inl k ↦ rw (h, k) refl
    | inr k ↦ rw (text_lt_total a b h k) refl
  ]
]

conversation_cases :
    (a b : Text)
    → (private_conversation_id a b ≡ joined a b) ⊎ (private_conversation_id a b ≡ joined b a)
unfolding private_conversation_id
conversation_cases a b = elim (Bool-cases (text_lt a b)) [
  | inl h ↦ inl (rw h refl)
  | inr h ↦ inr (rw h refl)
]

pub same_users :
    (a b c d : Text)
    → is_valid_name a ≡ true
    → is_valid_name b ≡ true
    → is_valid_name c ≡ true
    → is_valid_name d ≡ true
    → private_conversation_id a b ≡ private_conversation_id c d
    → ((a ≡ c) × (b ≡ d)) ⊎ ((a ≡ d) × (b ≡ c))
same_users a b c d va vb vc vd e = elim (conversation_cases a b) [
  | inl f ↦ elim (conversation_cases c d) [
    | inl g ↦ inl (joined-names a b c d va vc (sym f ∙ e ∙ g))
    | inr g ↦ inr (joined-names a b d c va vd (sym f ∙ e ∙ g))
  ]
  | inr f ↦ elim (conversation_cases c d) [
    | inl g ↦ let n = joined-names b a c d vb vc (sym f ∙ e ∙ g) in inr (n.1, n.0)
    | inr g ↦ let n = joined-names b a d c vb vd (sym f ∙ e ∙ g) in inl (n.1, n.0)
  ]
]

-- Two pairs of valid names have the same conversation exactly if they are the same two users, in
-- whatever order.
pub private_conversation_id_iff :
    (a b c d : Text)
    → is_valid_name a ≡ true
    → is_valid_name b ≡ true
    → is_valid_name c ≡ true
    → is_valid_name d ≡ true
    → (private_conversation_id a b ≡ private_conversation_id c d)
      ↔ (((a ≡ c) × (b ≡ d)) ⊎ ((a ≡ d) × (b ≡ c)))
private_conversation_id_iff a b c d va vb vc vd = (
  same_users a b c d va vb vc vd,
  λ h. elim h [
    | inl (e, f) ↦ rw (e, f) refl
    | inr (e, f) ↦ rw (e, f) (private_conversation_id_comm d c)
  ],
)
