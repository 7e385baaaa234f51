-- ===== src/Json/Stack.antt =====
-- The recursion of `consumeJsonValue` of common/Json.cc on the stack of the thread: how many levels it
-- needs at most, and what a text does that needs more.
use chat_service.Base.{
  ℕ, zero, suc, ◌≤◌, Text, Bool, true, false, [], ◌∷◌, ◌==◌, length, if◌then◌else◌, ◌≡◌, ◌≢◌, refl,
  sym, ◌∙◌, arith,
}
use chat_service.Json.Parsed.{Parsed, ok, err, out_of_fuel, ◌>>=◌}
use chat_service.Json.Lexical.{skip_whitespace, between}
use chat_service.Json.Values.{
  Separator, closed, another, wrong, consume_key, array_separator, object_separator, begins_with,
  tail, value_by, consume_json_value, consume_json_array, consume_items, consume_json_object,
  consume_members, enough, is_raw, parse_json_value_on, parse_json_value_as_string,
}
use chat_service.Json.Objects.{parse_json_object}
use chat_service.Json.Progress.{Leaves}
use chat_service.Json.Totality.{parse_json_value_as_string-Leaves, parse_json_object-ne-out_of_fuel}

-- The second result is the first, unless the first is a crash.
infix 4 ◌⊑◌
data ◌⊑◌ {ℓ} {A : Type ℓ} (r s : Parsed A) : Type ℓ where
  crashed : r ≡ out_of_fuel → r ⊑ s
  same : r ≡ s → r ⊑ s

if-⊑ {ℓ} :
    {A : Type ℓ} {r r' s s' : Parsed A} (b : Bool)
    → r ⊑ r'
    → s ⊑ s'
    → (if b then r else s) ⊑ (if b then r' else s')
if-⊑ true h k = h
if-⊑ false h k = k

value_by-⊑ :
    (object object' array array' : Parsed (Unit {0})) (text : Text)
    → object ⊑ object'
    → array ⊑ array'
    → value_by object array text ⊑ value_by object' array' text
unfolding value_by
value_by-⊑ object object' array array' [] o a = same refl
value_by-⊑ object object' array array' (c ∷ rest) o a =
    if-⊑ (c == 0x22) (same refl) (if-⊑ (c == b'{') o (if-⊑ (c == b'[') a (same refl)))

-- Behind a separator, with `next` for the rest of the loop.
abbrev loop_end : Separator → (Text → Parsed (Unit {0})) → Parsed (Unit {0})
loop_end s next = elim s [ closed end ↦ ok tt end | another rest ↦ next rest | wrong e ↦ err e ]

loop_end-⊑ :
    (s : Separator) (next next' : Text → Parsed (Unit {0}))
    → ((rest : Text) → next rest ⊑ next' rest)
    → loop_end s next ⊑ loop_end s next'
loop_end-⊑ (closed end) next next' h = same refl
loop_end-⊑ (another rest) next next' h = h rest
loop_end-⊑ (wrong e) next next' h = same refl

-- What follows a read.
then-⊑ {ℓ κ} :
    {A : Type ℓ} {B : Type κ} (r r' : Parsed A) (f f' : A → Text → Parsed B)
    → r ⊑ r'
    → ((v : A) (rest : Text) → f v rest ⊑ f' v rest)
    → (elim r [ err e ↦ err e | out_of_fuel ↦ out_of_fuel | ok v rest ↦ f v rest ])
      ⊑ (elim r' [ err e ↦ err e | out_of_fuel ↦ out_of_fuel | ok v rest ↦ f' v rest ])
then-⊑ r r' f f' (crashed h) k = rw h (crashed refl)
then-⊑ r r' f f' (same h) k = rw h (equal r')
  where
    equal :
        (r : Parsed _)
        → (elim r [ err e ↦ err e | out_of_fuel ↦ out_of_fuel | ok v rest ↦ f v rest ])
          ⊑ (elim r [ err e ↦ err e | out_of_fuel ↦ out_of_fuel | ok v rest ↦ f' v rest ])
    equal (err e) = same refl
    equal out_of_fuel = same refl
    equal (ok v rest) = k v rest

mutual
  unfolding consume_json_value

  value-⊑ :
      (fuel levels more : ℕ) (text : Text)
      → levels ≤ more
      → consume_json_value fuel levels text ⊑ consume_json_value fuel more text
  value-⊑ zero levels more text h = same refl
  value-⊑ (suc fuel) zero zero text h = same refl
  value-⊑ (suc fuel) zero (suc more) text h =
      value_by-⊑ _ _ _ _ (skip_whitespace text) (crashed refl) (crashed refl)
  value-⊑ (suc fuel) (suc levels) zero text h = absurd (omega arith)
  value-⊑ (suc fuel) (suc levels) (suc more) text h =
      value_by-⊑ _ _ _ _ (skip_whitespace text)
        (object-⊑ fuel levels more (skip_whitespace (tail (skip_whitespace text))) (omega arith))
        (array-⊑ fuel levels more (skip_whitespace (tail (skip_whitespace text))) (omega arith))

  array-⊑ :
      (fuel levels more : ℕ) (text : Text)
      → levels ≤ more
      → consume_json_array fuel levels text ⊑ consume_json_array fuel more text
  array-⊑ zero levels more text h = same refl
  array-⊑ (suc fuel) levels more text h =
      if-⊑ (begins_with b']' text) (same refl) (items-⊑ fuel levels more text h)

  items-⊑ :
      (fuel levels more : ℕ) (text : Text)
      → levels ≤ more
      → consume_items fuel levels text ⊑ consume_items fuel more text
  items-⊑ zero levels more text h = same refl
  items-⊑ (suc fuel) levels more [] h = same refl
  items-⊑ (suc fuel) levels more (c ∷ text) h =
      then-⊑ _ _ _ _ (value-⊑ fuel levels more (c ∷ text) h)
        λ _ rest. loop_end-⊑ (array_separator rest) _ _ (λ next. items-⊑ fuel levels more next h)

  object-⊑ :
      (fuel levels more : ℕ) (text : Text)
      → levels ≤ more
      → consume_json_object fuel levels text ⊑ consume_json_object fuel more text
  object-⊑ zero levels more text h = same refl
  object-⊑ (suc fuel) levels more text h =
      if-⊑ (begins_with b'}' text) (same refl) (members-⊑ fuel levels more text h)

  members-⊑ :
      (fuel levels more : ℕ) (text : Text)
      → levels ≤ more
      → consume_members fuel levels text ⊑ consume_members fuel more text
  members-⊑ zero levels more text h = same refl
  members-⊑ (suc fuel) levels more [] h = same refl
  members-⊑ (suc fuel) levels more (c ∷ text) h =
      then-⊑ (consume_key (c ∷ text)) _ _ _ (same refl) λ _ value.
        then-⊑ _ _ _ _ (value-⊑ fuel levels more value h) λ _ rest.
          loop_end-⊑ (object_separator rest) _ _ (λ next. members-⊑ fuel levels more next h)

Leaves-ne {ℓ} : {A : Type ℓ} (n : ℕ) (r : Parsed A) → Leaves n r → r ≢ out_of_fuel
Leaves-ne n (ok v rest) l = λ h. cc
Leaves-ne n (err e) l = λ h. cc
Leaves-ne n out_of_fuel l = absurd l

-- A result that is no crash stays.
⊑-eq {ℓ} : {A : Type ℓ} (r s : Parsed A) → r ⊑ s → r ≢ out_of_fuel → r ≡ s
⊑-eq r s (crashed h) ne = absurd (ne h)
⊑-eq r s (same h) ne = h

value_on-⊑ :
    (levels more : ℕ) (text : Text)
    → levels ≤ more
    → parse_json_value_on levels text ⊑ parse_json_value_on more text
unfolding parse_json_value_on
value_on-⊑ levels more [] h = same refl
value_on-⊑ levels more (c ∷ text) h = if-⊑ (c == 0x22) (same refl) (
    if-⊑ (is_raw c)
      (bound (consume_json_value (enough (c ∷ text)) levels (c ∷ text)) _
        (value-⊑ (enough (c ∷ text)) levels more (c ∷ text) h))
      (same refl))
  where
    bound :
        (r s : Parsed (Unit {0}))
        → r ⊑ s
        → (r >>= λ _ rest. ok (between (c ∷ text) rest) rest)
          ⊑ (s >>= λ _ rest. ok (between (c ∷ text) rest) rest)
    bound r s (crashed k) = rw k (crashed refl)
    bound r s (same k) = rw k (same refl)

-- A stack with a level for each character of the text is enough. On such a stack the reader of a
-- value returns a text or an error and does not crash, its result is the same on every such stack,
-- and the parser of an object, whose values are read on such stacks, returns an object or an error.
pub parse_json_value_on-levels :
    (levels : ℕ) (text : Text)
    → length text ≤ levels
    → (parse_json_value_on levels text ≢ out_of_fuel)
      × (parse_json_value_on levels text ≡ parse_json_value_as_string text)
      × (parse_json_object text ≢ out_of_fuel)
unfolding parse_json_value_as_string
parse_json_value_on-levels levels text h =
    let ne = Leaves-ne (length text) _ (parse_json_value_as_string-Leaves text) in
    let e = ⊑-eq _ _ (value_on-⊑ (length text) levels text h) ne in
    ((λ q. ne (e ∙ q)), sym e, parse_json_object-ne-out_of_fuel text)

-- So many opening brackets, and any text behind them.
abbrev pub brackets : ℕ → Text → Text
brackets zero rest = rest
brackets (suc n) rest = b'[' ∷ brackets n rest

consume-brackets :
    (fuel levels : ℕ) (rest : Text)
    → consume_json_value fuel levels (brackets (suc levels) rest) ≡ out_of_fuel
unfolding consume_json_value skip_whitespace value_by
consume-brackets zero levels rest = refl
consume-brackets (suc fuel) zero rest = refl
consume-brackets (suc zero) (suc levels) rest = refl
consume-brackets (suc (suc zero)) (suc levels) rest = refl
consume-brackets (suc (suc (suc fuel))) (suc levels) rest =
    rw (consume-brackets fuel levels rest) refl

-- A value that begins with one opening bracket more than the stack has levels ends the process,
-- whatever stands behind the brackets, while a larger stack gives a text or an error.
pub parse_json_value_on-brackets :
    (levels : ℕ) (rest : Text)
    → (parse_json_value_on levels (brackets (suc levels) rest) ≡ out_of_fuel)
      × (parse_json_value_as_string (brackets (suc levels) rest) ≢ out_of_fuel)
unfolding parse_json_value_on
parse_json_value_on-brackets levels rest = (
  rw (consume-brackets (enough (brackets (suc levels) rest)) levels rest) refl,
  Leaves-ne (length (brackets (suc levels) rest)) _
      (parse_json_value_as_string-Leaves (brackets (suc levels) rest)),
)
