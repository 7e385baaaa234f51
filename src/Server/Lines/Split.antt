-- ===== src/Server/Lines/Split.antt =====
-- The lines of a buffer, and what is left behind the last line break.
use chat_service.Base.{
  ◌≡◌, ◌<◌, refl, arith, inl, inr, Bool-cases, Option-cases, List-cases, ℕ, Text, Bool, true, false,
  List, [], ◌∷◌, ◌++◌, Option, none, some, ◌==◌, if◌then◌else◌, length,
}

-- `findEOL`, `peek` and `retrieveUntil`: the bytes before the first line break, and those behind it.
unfoldable pub take_line : Text → Option (Text × Text)
take_line [] = none
take_line (c ∷ buffer) =
    let found = take_line buffer in
    if c == 0x0a
    then some ([], buffer)
    else elim found [ none ↦ none | some (line, rest) ↦ some (c ∷ line, rest) ]

-- `if (!line.empty() && line[line.size() - 1] == '\r') line.resize(line.size() - 1)`
unfoldable pub strip_return : Text → Text
strip_return [] = []
strip_return (c ∷ []) = if c == 0x0d then [] else c ∷ []
strip_return (c ∷ d ∷ line) = c ∷ strip_return (d ∷ line)

-- The reference: all lines of a text, without their ends.
abbrev pub attach : ℕ → List Text → List Text
attach c [] = []
attach c (line ∷ lines) = (c ∷ line) ∷ lines

unfoldable pub lines_of : Text → List Text
lines_of [] = []
lines_of (c ∷ s) = let more = lines_of s in if c == 0x0a then [] ∷ more else attach c more

abbrev pub no_lines : List Text → Bool
no_lines [] = true
no_lines (line ∷ lines) = false

-- The reference: what stands behind the last line break.
unfoldable pub rest_of : Text → Text
unfolding lines_of
rest_of [] = []
rest_of (c ∷ s) =
    let more = rest_of s in
    if c == 0x0a then more else if no_lines (lines_of s) then c ∷ more else more

-- `findEOL` finds no line break exactly in a text without lines.
pub take_line-none : (s : Text) → take_line s ≡ none → (lines_of s ≡ []) × (rest_of s ≡ s)
unfolding take_line lines_of rest_of
take_line-none [] h = (refl, refl)
take_line-none (c ∷ s) h = elim (Bool-cases (c == 0x0a)) [
  | inl e ↦ absurd (ground arith)
  | inr ne ↦ elim (Option-cases (take_line s)) [
    | inl k ↦ ground (arith, take_line-none s k)
    | inr (p, k) ↦ absurd (ground arith)
  ]
]

pub take_line-some :
    (s line rest : Text)
    → take_line s ≡ some (line, rest)
    → (lines_of s ≡ line ∷ lines_of rest) × (rest_of s ≡ rest_of rest) × (length rest < length s)
unfolding take_line lines_of rest_of
take_line-some [] line rest h = cc
take_line-some (c ∷ s) line rest h = elim (Bool-cases (c == 0x0a)) [
  | inl e ↦ ground arith
  | inr ne ↦ elim (Option-cases (take_line s)) [
    | inl k ↦ absurd (ground arith)
    | inr (p, k) ↦ ground (arith, take_line-some s p.0 p.1 k)
  ]
]

pub lines_of-append :
    (s t : Text)
    → (lines_of (s ++ t) ≡ lines_of s ++ lines_of (rest_of s ++ t))
      × (rest_of (s ++ t) ≡ rest_of (rest_of s ++ t))
unfolding lines_of rest_of
lines_of-append [] t = (refl, refl)
lines_of-append (c ∷ s) t =
    let ih = lines_of-append s t in
    elim (Bool-cases (c == 0x0a)) [
      | inl e ↦ ground (arith, ih)
      | inr ne ↦ elim (List-cases (lines_of s)) [
        | inl k ↦ ground (arith, ih, k)
        | inr (l, ls, k) ↦ ground (arith, ih, k)
      ]
    ]

-- No byte is a line break.
abbrev pub HasNoBreak : Text → Type 0
HasNoBreak [] = Unit {0}
HasNoBreak (c ∷ s) = ((c == 0x0a) ≡ false) × HasNoBreak s

-- A line with its end is one line, and nothing is left.
pub lines_of-line :
    (s : Text)
    → HasNoBreak s
    → (lines_of (s ++ 0x0a ∷ []) ≡ s ∷ []) × (rest_of (s ++ 0x0a ∷ []) ≡ [])
unfolding lines_of rest_of
lines_of-line [] h = (refl, refl)
lines_of-line (c ∷ s) h = ground (arith, lines_of-line s h.1)

-- What is left has no line break.
pub take_line-rest_of : (s : Text) → take_line (rest_of s) ≡ none
unfolding take_line rest_of lines_of
take_line-rest_of [] = refl
take_line-rest_of (c ∷ s) = elim (Bool-cases (c == 0x0a)) [
  | inl e ↦ ground (arith, take_line-rest_of s)
  | inr ne ↦ elim (List-cases (lines_of s)) [
    | inl k ↦ ground (arith, take_line-rest_of s, k)
    | inr (l, ls, k) ↦ ground (arith, take_line-rest_of s, k)
  ]
]
