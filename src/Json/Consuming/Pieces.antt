-- ===== src/Json/Consuming/Pieces.antt =====
-- What the small readers of common/Json.cc leave of the text.
use chat_service.Base.{
  ℕ, suc, ◌+◌, ◌<◌, Text, some, [], ◌∷◌, ◌==◌, length, codes, ◌≡◌, inl, inr, arith, Bool-cases,
  Option-cases,
}
use chat_service.Json.Parsed.{Parsed, ok}
use chat_service.Json.Lexical.{skip_whitespace, parse_json_string}
use chat_service.Json.Values.{
  Separator, closed, another, wrong, separator_at, colon, consume_key, ignore, strip_prefix,
  consume_json_literal,
}
use chat_service.Json.Progress.{
  Leaves, Leaves-bind, Leaves-mono, length-skip_whitespace, parse_json_string-Leaves,
}

abbrev pub SeparatorLeaves : ℕ → Separator → Type 0
SeparatorLeaves n (closed rest) = length rest < n
SeparatorLeaves n (another rest) = length rest < n
SeparatorLeaves n (wrong e) = Unit {0}

separator_at-Leaves :
    (close : ℕ) (e f text : Text) → SeparatorLeaves (length text) (separator_at close e f text)
unfolding separator_at
separator_at-Leaves close e f [] = tt
separator_at-Leaves close e f (c ∷ text) = elim (Bool-cases (c == close)) [
  | inl h ↦ rw h (omega arith)
  | inr h ↦ rw h (elim (Bool-cases (c == b',')) [
    | inl k ↦ rw k (omega (arith, length-skip_whitespace text))
    | inr k ↦ rw k tt
  ])
]

pub separator-Leaves :
    (close : ℕ) (e f text : Text)
    → SeparatorLeaves (suc (length text)) (separator_at close e f (skip_whitespace text))
separator-Leaves close e f text =
    raise (separator_at close e f (skip_whitespace text))
      (separator_at-Leaves close e f (skip_whitespace text))
  where
    raise :
        (s : Separator)
        → SeparatorLeaves (length (skip_whitespace text)) s
        → SeparatorLeaves (suc (length text)) s
    raise (closed rest) l = omega (arith, length-skip_whitespace text)
    raise (another rest) l = omega (arith, length-skip_whitespace text)
    raise (wrong e) l = tt

pub colon-Leaves : (e text : Text) → Leaves (length text) (colon e text)
unfolding colon
colon-Leaves e [] = tt
colon-Leaves e (c ∷ text) = elim (Bool-cases (c == b':')) [
  | inl h ↦ rw h (omega (arith, length-skip_whitespace text))
  | inr h ↦ rw h tt
]

pub consume_key-Leaves : (text : Text) → Leaves (length text) (consume_key text)
unfolding consume_key
consume_key-Leaves text =
    Leaves-bind (length text) (length text) (parse_json_string text)
      (λ _ rest. colon (codes "expected colon in object") (skip_whitespace rest))
      (parse_json_string-Leaves text)
      λ _ rest l.
        Leaves-mono (length (skip_whitespace rest)) (length text) _
          (omega (arith, length-skip_whitespace rest))
          (colon-Leaves (codes "expected colon in object") (skip_whitespace rest))

pub ignore-Leaves : (n : ℕ) (r : Parsed Text) → Leaves n r → Leaves n (ignore r)
ignore-Leaves n r l = Leaves-bind n n r (λ _ rest. ok tt rest) l (λ _ rest h. h)

strip_prefix-length :
    (literal text rest : Text)
    → strip_prefix literal text ≡ some rest
    → length rest + length literal ≡ length text
unfolding strip_prefix
strip_prefix-length [] text rest h = ground arith
strip_prefix-length (c ∷ literal) [] rest h = cc
strip_prefix-length (c ∷ literal) (d ∷ text) rest h =
    ground (arith, strip_prefix-length literal text rest)

pub consume_json_literal-Leaves :
    (literal text : Text)
    → 0 < length literal
    → Leaves (length text) (consume_json_literal literal text)
unfolding consume_json_literal
consume_json_literal-Leaves literal text h = elim (Option-cases (strip_prefix literal text)) [
  | inl e ↦ rw (e, consume_json_literal) tt
  | inr (rest, e) ↦
      rw (e, consume_json_literal) (omega (arith, strip_prefix-length literal text rest e))
]
