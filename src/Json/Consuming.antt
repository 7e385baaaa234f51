-- ===== src/Json/Consuming.antt =====
-- The values that common/Json.cc skips over whole: every read moves forward, and `enough` fuel is
-- never used up, if the stack holds a level for each character.
pub mod Pieces
pub use Pieces.*
use chat_service.Base.{
  ℕ, zero, suc, ◌+◌, ◌*◌, ◌≤◌, ◌<◌, Text, Bool, true, false, some, [], ◌∷◌, ◌==◌, length, codes,
  if◌then◌else◌, ◌≡◌, inl, inr, arith, Bool-cases, Option-cases,
}
use chat_service.Json.Parsed.{Parsed, ok, err, out_of_fuel}
use chat_service.Json.Lexical.{skip_whitespace, parse_json_string, parse_json_number_as_string}
use chat_service.Json.Values.{
  Separator, closed, another, wrong, separator_at, colon, consume_key, ignore, tail, strip_prefix,
  consume_json_literal, value_by, consume_json_value, consume_json_array, consume_items,
  consume_json_object, consume_members,
}
use chat_service.Json.Progress.{
  Leaves, Leaves-bind, Leaves-mono, length-skip_whitespace, parse_json_string-Leaves,
  parse_json_number_as_string-Leaves,
}

-- Behind an opening bracket and its white space.
abbrev behind_bracket : Text → Text
behind_bracket text = skip_whitespace (tail (skip_whitespace text))

length-tail : (s : Text) → length (tail s) ≤ length s
length-tail [] = omega arith
length-tail (c ∷ s) = omega arith

length-tail_pos : (s : Text) → 0 < length s → length (tail s) < length s
length-tail_pos [] h = absurd (omega arith)
length-tail_pos (c ∷ s) h = omega arith

length-behind_bracket : (text : Text) → length (behind_bracket text) ≤ length (skip_whitespace text)
length-behind_bracket text = omega (
  arith,
  length-skip_whitespace (tail (skip_whitespace text)),
  length-tail (skip_whitespace text),
)

length-behind_bracket_pos :
    (text : Text) → 0 < length (skip_whitespace text) → length (behind_bracket text) < length text
length-behind_bracket_pos text h = omega (
  arith,
  length-skip_whitespace (tail (skip_whitespace text)),
  length-tail_pos (skip_whitespace text) h,
  length-skip_whitespace text,
)

-- The same, as a family, so that a branch can be taken without writing its two sides.
data Within (n : ℕ) (r : Parsed (Unit {0})) : Type 0 where
  within : Leaves n r → Within n r

leaves : {n : ℕ} {r : Parsed (Unit {0})} → Within n r → Leaves n r
leaves (within l) = l

Within-if :
    {n : ℕ} {r s : Parsed (Unit {0})} (b : Bool)
    → Within n r
    → Within n s
    → Within n (if b then r else s)
Within-if true h k = h
Within-if false h k = k

-- The branches of `consumeJsonValue`, given what the two recursive ones leave.
value_branches :
    (c : ℕ) (rest : Text) (object array : Parsed (Unit {0}))
    → Leaves (suc (length rest)) object
    → Leaves (suc (length rest)) array
    → Within (suc (length rest)) (
        if c == 0x22
        then ignore (parse_json_string (c ∷ rest))
        else if c == b'{'
        then object
        else if c == b'['
        then array
        else if c == b't'
        then consume_json_literal (codes "true") (c ∷ rest)
        else if c == b'f'
        then consume_json_literal (codes "false") (c ∷ rest)
        else if c == b'n'
        then consume_json_literal (codes "null") (c ∷ rest)
        else ignore (parse_json_number_as_string (c ∷ rest)))
unfolding codes
value_branches c rest object array o a =
    Within-if _ (within (ignore-Leaves _ _ (parse_json_string-Leaves (c ∷ rest)))) (
      Within-if _ (within o) (
        Within-if _ (within a) (
          Within-if _ (within (consume_json_literal-Leaves (codes "true") (c ∷ rest) (omega arith)))
            (Within-if _
              (within (consume_json_literal-Leaves (codes "false") (c ∷ rest) (omega arith)))
              (Within-if _
                (within (consume_json_literal-Leaves (codes "null") (c ∷ rest) (omega arith)))
                (within (ignore-Leaves _ _ (parse_json_number_as_string-Leaves (c ∷ rest)))))))))

-- From the first character that is no white space.
value_from :
    (n : ℕ) (start : Text) (object array : Parsed (Unit {0}))
    → length start ≤ n
    → (0 < length start → Leaves (length start) object)
    → (0 < length start → Leaves (length start) array)
    → Leaves n (value_by object array start)
unfolding value_by
value_from n [] object array le o a = tt
value_from n (c ∷ rest) object array le o a =
    Leaves-mono (suc (length rest)) n _ le
      (leaves (value_branches c rest object array (o (omega arith)) (a (omega arith))))

-- Behind a value, where a loop stops or goes on with `next`.
loop_end :
    (n m : ℕ) (s : Separator) (next : Text → Parsed (Unit {0}))
    → m ≤ n
    → SeparatorLeaves m s
    → ((rest : Text) → length rest < n → Leaves n (next rest))
    → Leaves {0} {A = Unit {0}} n
        (elim s [ closed end ↦ ok tt end | another rest ↦ next rest | wrong e ↦ err e ])
loop_end n m (closed end) next le l k = omega arith
loop_end n m (another rest) next le l k = k rest (omega arith)
loop_end n m (wrong e) next le l k = tt

-- A round of either loop, from the result of its value.
round_end :
    (n close : ℕ) (e f : Text) (r : Parsed (Unit {0})) (next : Text → Parsed (Unit {0}))
    → Leaves n r
    → ((rest : Text) → length rest < n → Leaves n (next rest))
    → Leaves {0} {A = Unit {0}} n (elim r [
      | err e' ↦ err e'
      | out_of_fuel ↦ out_of_fuel
      | ok _ rest ↦ elim (separator_at close e f (skip_whitespace rest)) [
        | closed end ↦ ok tt end
        | another more ↦ next more
        | wrong e' ↦ err e'
      ]
    ])
round_end n close e f (err e') next l k = tt
round_end n close e f out_of_fuel next l k = absurd l
round_end n close e f (ok _ rest) next l k =
    loop_end n (suc (length rest)) (separator_at close e f (skip_whitespace rest)) next l
      (separator-Leaves close e f rest) k

-- A round of the loop over members, from the result of its key.
member_end :
    (n close : ℕ) (e f : Text) (key : Parsed (Unit {0})) (value next : Text → Parsed (Unit {0}))
    → Leaves n key
    → ((rest : Text) → length rest < n → Leaves n (value rest))
    → ((rest : Text) → length rest < n → Leaves n (next rest))
    → Leaves {0} {A = Unit {0}} n (elim key [
      | err e' ↦ err e'
      | out_of_fuel ↦ out_of_fuel
      | ok _ start ↦ elim (value start) [
        | err e' ↦ err e'
        | out_of_fuel ↦ out_of_fuel
        | ok _ rest ↦ elim (separator_at close e f (skip_whitespace rest)) [
          | closed end ↦ ok tt end
          | another more ↦ next more
          | wrong e' ↦ err e'
        ]
      ]
    ])
member_end n close e f (err e') value next l v k = tt
member_end n close e f out_of_fuel value next l v k = absurd l
member_end n close e f (ok _ start) value next l v k =
    round_end n close e f (value start) next (v start l) k

mutual
  unfolding consume_json_value

  -- On a stack with at least a level for each character.
  pub value-Leaves :
      (fuel levels : ℕ) (text : Text)
      → 3 * length text + 1 ≤ fuel
      → length text ≤ levels
      → Leaves (length text) (consume_json_value fuel levels text)
  value-Leaves zero levels text h k = absurd (omega arith)
  value-Leaves (suc fuel) zero text h k =
      value_from (length text) (skip_whitespace text) out_of_fuel out_of_fuel
        (length-skip_whitespace text) (λ pos. absurd (omega (arith, length-skip_whitespace text)))
        (λ pos. absurd (omega (arith, length-skip_whitespace text)))
  value-Leaves (suc fuel) (suc levels) text h k =
      value_from (length text) (skip_whitespace text)
        (consume_json_object fuel levels (behind_bracket text))
        (consume_json_array fuel levels (behind_bracket text)) (length-skip_whitespace text)
        (λ pos.
          Leaves-mono (length (behind_bracket text)) (length (skip_whitespace text)) _
            (omega (arith, length-behind_bracket text))
            (object-Leaves fuel levels (behind_bracket text)
              (omega (arith, length-behind_bracket_pos text pos))
              (omega (arith, length-behind_bracket_pos text pos))))
        (λ pos.
          Leaves-mono (length (behind_bracket text)) (length (skip_whitespace text)) _
            (omega (arith, length-behind_bracket text))
            (array-Leaves fuel levels (behind_bracket text)
              (omega (arith, length-behind_bracket_pos text pos))
              (omega (arith, length-behind_bracket_pos text pos))))

  array-Leaves :
      (fuel levels : ℕ) (text : Text)
      → 3 * length text + 3 ≤ fuel
      → length text ≤ levels
      → Leaves (length text) (consume_json_array fuel levels text)
  array-Leaves zero levels text h k = absurd (omega arith)
  array-Leaves (suc fuel) levels [] h k = items-Leaves fuel levels [] (omega arith) k
  array-Leaves (suc fuel) levels (c ∷ text) h k = elim (Bool-cases (c == b']')) [
    | inl t ↦ rw t (omega arith)
    | inr t ↦ rw t (items-Leaves fuel levels (c ∷ text) (omega arith) k)
  ]

  items-Leaves :
      (fuel levels : ℕ) (text : Text)
      → 3 * length text + 2 ≤ fuel
      → length text ≤ levels
      → Leaves (length text) (consume_items fuel levels text)
  items-Leaves zero levels text h k = absurd (omega arith)
  items-Leaves (suc fuel) levels [] h k = tt
  items-Leaves (suc fuel) levels (c ∷ text) h k =
      round_end (suc (length text)) b']' (codes "unterminated array")
        (codes "expected comma in array") (consume_json_value fuel levels (c ∷ text))
        (consume_items fuel levels) (value-Leaves fuel levels (c ∷ text) (omega arith) k)
        (λ rest l.
          Leaves-mono (length rest) (suc (length text)) _ (omega arith)
            (items-Leaves fuel levels rest (omega arith) (omega (arith, k, l))))

  object-Leaves :
      (fuel levels : ℕ) (text : Text)
      → 3 * length text + 3 ≤ fuel
      → length text ≤ levels
      → Leaves (length text) (consume_json_object fuel levels text)
  object-Leaves zero levels text h k = absurd (omega arith)
  object-Leaves (suc fuel) levels [] h k = members-Leaves fuel levels [] (omega arith) k
  object-Leaves (suc fuel) levels (c ∷ text) h k = elim (Bool-cases (c == b'}')) [
    | inl t ↦ rw t (omega arith)
    | inr t ↦ rw t (members-Leaves fuel levels (c ∷ text) (omega arith) k)
  ]

  members-Leaves :
      (fuel levels : ℕ) (text : Text)
      → 3 * length text + 2 ≤ fuel
      → length text ≤ levels
      → Leaves (length text) (consume_members fuel levels text)
  members-Leaves zero levels text h k = absurd (omega arith)
  members-Leaves (suc fuel) levels [] h k = tt
  members-Leaves (suc fuel) levels (c ∷ text) h k =
      member_end (suc (length text)) b'}' (codes "unterminated object")
        (codes "expected comma in object") (consume_key (c ∷ text)) (consume_json_value fuel levels)
        (consume_members fuel levels) (consume_key-Leaves (c ∷ text))
        (λ rest l.
          Leaves-mono (length rest) (suc (length text)) _ (omega arith)
            (value-Leaves fuel levels rest (omega arith) (omega (arith, k, l))))
        (λ rest l.
          Leaves-mono (length rest) (suc (length text)) _ (omega arith)
            (members-Leaves fuel levels rest (omega arith) (omega (arith, k, l))))
