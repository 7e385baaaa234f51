-- ===== src/Base/Order.antt =====
-- Maps whose keys are in strict order, as `std::map` keeps them.
use mathlib.Core.Bool.{true, false}
use mathlib.Core.List.{[], ◌∷◌, ◌++◌}
use mathlib.Core.Path.{◌≡◌, refl, ap, ◌∙◌, sym, subst}
use mathlib.Core.List.{append_assoc, append-nil}
use mathlib.Core.Logic.{inl, inr}
use native.Mathlib.Omega.{arith}
use chat_service.Base.Tests.{Bool-cases}
use chat_service.Base.Bytes.{Text, text_eq, text_lt, text_eq_iff, text_lt_trans, text_lt_irrefl}
use chat_service.Base.Maps.{TextMap, insert}

-- Of two different keys that are not in order, the second comes first.
above_of_not_below : (k i : Text) → text_eq i k ≡ false → text_lt k i ≡ false → text_lt i k ≡ true
unfolding text_lt text_eq
above_of_not_below [] [] h l = cc
above_of_not_below [] (b ∷ i) h l = cc
above_of_not_below (a ∷ k) [] h l = refl
above_of_not_below (a ∷ k) (b ∷ i) h l = ground (arith, above_of_not_below k i)

text_lt-above : (i k : Text) → text_lt i k ≡ true → (text_eq i k ≡ false) × (text_lt k i ≡ false)
text_lt-above i k h = ground (arith, text_eq_iff i k, text_lt_irrefl i, text_lt_trans i k i h)

-- Of two texts one comes first, unless they are the same; and then not the other.
pub text_lt_total : (s t : Text) → text_lt s t ≡ false → text_lt t s ≡ false → s ≡ t
text_lt_total s t h k = ground (arith, above_of_not_below t s, text_eq_iff s t)

pub text_lt_asymm : (s t : Text) → text_lt s t ≡ true → text_lt t s ≡ false
text_lt_asymm s t h = (text_lt-above s t h).1

module _ {ℓ} {V : Type ℓ} where
  -- Every key of the map is above `k`.
  abbrev pub AllAbove : Text → TextMap V → Type 0
  AllAbove k [] = Unit {0}
  AllAbove k ((j, v) ∷ m) = (text_lt k j ≡ true) × AllAbove k m

  abbrev pub AllBelow : TextMap V → Text → Type 0
  AllBelow [] k = Unit {0}
  AllBelow ((j, v) ∷ m) k = (text_lt j k ≡ true) × AllBelow m k

  abbrev pub IsSorted : TextMap V → Type 0
  IsSorted [] = Unit {0}
  IsSorted ((k, v) ∷ m) = AllAbove k m × IsSorted m

  -- Every key of the first map is below every key of the second.
  abbrev pub Precedes : TextMap V → TextMap V → Type 0
  Precedes xs [] = Unit {0}
  Precedes xs ((k, v) ∷ m) = AllBelow xs k × Precedes xs m

  unfoldable pub insert_all : TextMap V → TextMap V → TextMap V
  insert_all [] xs = xs
  insert_all ((k, v) ∷ m) xs = insert_all m (insert k v xs)

  AllAbove-trans : (j k : Text) (m : TextMap V) → text_lt j k ≡ true → AllAbove k m → AllAbove j m
  AllAbove-trans j k [] h a = tt
  AllAbove-trans j k ((i, v) ∷ m) h a = (text_lt_trans j k i h a.0, AllAbove-trans j k m h a.1)

  AllAbove-insert :
      (j k : Text) (v : V) (m : TextMap V)
      → text_lt j k ≡ true
      → AllAbove j m
      → AllAbove j (insert k v m)
  unfolding insert
  AllAbove-insert j k v [] h a = (h, tt)
  AllAbove-insert j k v ((i, w) ∷ m) h a = ground (arith, AllAbove-insert j k v m h)

  -- Writing to a sorted map leaves it sorted.
  pub insert-IsSorted : (k : Text) (v : V) (m : TextMap V) → IsSorted m → IsSorted (insert k v m)
  unfolding insert
  insert-IsSorted k v [] s = (tt, tt)
  insert-IsSorted k v ((i, w) ∷ m) s = elim (Bool-cases (text_eq i k)) [
    | inl e ↦ rw e (subst (λ t. AllAbove t m) ((text_eq_iff i k).0 e) s.0, s.1)
    | inr ne ↦ rw ne (elim (Bool-cases (text_lt k i)) [
      | inl lt ↦ rw lt ((lt, AllAbove-trans k i m lt s.0), s)
      | inr ge ↦
          rw ge
            (AllAbove-insert i k v m (above_of_not_below k i ne ge) s.0, insert-IsSorted k v m s.1)
    ])
  ]

  -- A key above all others goes to the end.
  insert-last :
      (k : Text) (v : V) (xs : TextMap V) → AllBelow xs k → insert k v xs ≡ xs ++ (k, v) ∷ []
  unfolding insert
  insert-last k v [] h = refl
  insert-last k v ((i, w) ∷ xs) h =
      rw ((text_lt-above i k h.0).0, (text_lt-above i k h.0).1)
        (ap (λ t. (i, w) ∷ t) (insert-last k v xs h.1))

  AllBelow-append :
      (xs : TextMap V) (k j : Text) (v : V)
      → AllBelow xs j
      → text_lt k j ≡ true
      → AllBelow (xs ++ (k, v) ∷ []) j
  AllBelow-append [] k j v h l = (l, tt)
  AllBelow-append (x ∷ xs) k j v h l = (h.0, AllBelow-append xs k j v h.1 l)

  Precedes-append :
      (xs : TextMap V) (k : Text) (v : V) (m : TextMap V)
      → Precedes xs m
      → AllAbove k m
      → Precedes (xs ++ (k, v) ∷ []) m
  Precedes-append xs k v [] p a = tt
  Precedes-append xs k v ((j, w) ∷ m) p a =
      (AllBelow-append xs k j v p.0 a.0, Precedes-append xs k v m p.1 a.1)

  insert_all-append : (m xs : TextMap V) → IsSorted m → Precedes xs m → insert_all m xs ≡ xs ++ m
  unfolding insert_all
  insert_all-append [] xs s p = sym (append-nil xs)
  insert_all-append ((k, v) ∷ m) xs s p =
      ap (insert_all m) (insert-last k v xs p.0)
      ∙ insert_all-append m (xs ++ (k, v) ∷ []) s.1 (Precedes-append xs k v m p.1 s.0)
      ∙ append_assoc xs ((k, v) ∷ []) m

  Precedes-nil : (m : TextMap V) → Precedes [] m
  Precedes-nil [] = tt
  Precedes-nil ((k, v) ∷ m) = (tt, Precedes-nil m)

  -- Writing the entries of a sorted map into the empty one gives it back.
  pub insert_all-nil : (m : TextMap V) → IsSorted m → insert_all m [] ≡ m
  insert_all-nil m s = insert_all-append m [] s (Precedes-nil m)
