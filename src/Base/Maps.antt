-- ===== src/Base/Maps.antt =====
-- `std::map<std::string, V>` as the list of its entries in the order of their keys, and
-- `std::set<std::string>` as the map with no values.
use mathlib.Core.Bool.{Bool, true, false}
use mathlib.Core.List.{List, [], ◌∷◌}
use mathlib.Core.Option.{Option, none, some}
use mathlib.Core.Path.{◌≡◌, refl, ap}
use mathlib.Core.Logic.{◌≢◌, ◌⊎◌}
use native.Mathlib.Omega.{arith}
use chat_service.Base.Tests.{if◌then◌else◌}
use chat_service.Base.Bytes.{Text, text_eq, text_lt, text_eq_iff, text_eq_refl, text_eq-ne}

abbrev pub TextMap {ℓ} : Type ℓ → Type ℓ
TextMap V = List (Text × V)

abbrev pub TextSet : Type 0
TextSet = TextMap (Unit {0})

abbrev pub is_some {ℓ} : {A : Type ℓ} → Option A → Bool
is_some none = false
is_some (some a) = true

module _ {ℓ} {V : Type ℓ} where
  -- m.find(k)
  unfoldable pub find : Text → TextMap V → Option V
  find k [] = none
  find k ((j, v) ∷ m) = if text_eq j k then some v else find k m

  -- m[k] = v
  unfoldable pub insert : Text → V → TextMap V → TextMap V
  insert k v [] = (k, v) ∷ []
  insert k v ((j, w) ∷ m) =
      if text_eq j k
      then (k, v) ∷ m
      else if text_lt k j
      then (k, v) ∷ (j, w) ∷ m
      else (j, w) ∷ insert k v m

  -- m.erase(k)
  unfoldable pub erase : Text → TextMap V → TextMap V
  erase k [] = []
  erase k ((j, v) ∷ m) = let rest = erase k m in if text_eq j k then rest else (j, v) ∷ rest

  -- m.find(k) != m.end()
  abbrev pub has : Text → TextMap V → Bool
  has k m = is_some (find k m)

  unfoldable pub keys : TextMap V → List Text
  keys [] = []
  keys ((k, v) ∷ m) = k ∷ keys m

  pub find-insert :
      (k j : Text) (v : V) (m : TextMap V)
      → find j (insert k v m) ≡ (if text_eq k j then some v else find j m)
  unfolding find insert
  find-insert k j v [] = refl
  find-insert k j v ((i, w) ∷ m) =
      ground (arith, text_eq_iff k j, text_eq_iff i k, text_eq_iff i j, find-insert k j v m)

  pub find-erase :
      (k j : Text) (m : TextMap V) → find j (erase k m) ≡ (if text_eq k j then none else find j m)
  unfolding find erase
  find-erase k j [] = ground arith
  find-erase k j ((i, w) ∷ m) =
      ground (arith, text_eq_iff k j, text_eq_iff i k, text_eq_iff i j, find-erase k j m)

  pub find-insert_self : (k : Text) (v : V) (m : TextMap V) → find k (insert k v m) ≡ some v
  find-insert_self k v m = rw (find-insert, text_eq_refl k)

  pub find-insert_ne :
      (k j : Text) (v : V) (m : TextMap V) → k ≢ j → find j (insert k v m) ≡ find j m
  find-insert_ne k j v m ne = rw (find-insert, text_eq-ne k j ne)

  pub find-erase_self : (k : Text) (m : TextMap V) → find k (erase k m) ≡ none
  find-erase_self k m = rw (find-erase, text_eq_refl k)

  pub find-erase_ne : (k j : Text) (m : TextMap V) → k ≢ j → find j (erase k m) ≡ find j m
  find-erase_ne k j m ne = rw (find-erase, text_eq-ne k j ne)

  -- What an entry of a written map is.
  pub find-insert_cases :
      (k j : Text) (v x : V) (m : TextMap V)
      → find j (insert k v m) ≡ some x
      → ((k ≡ j) × (v ≡ x)) ⊎ ((k ≢ j) × (find j m ≡ some x))
  find-insert_cases k j v x m h = ground (arith, find-insert k j v m, text_eq_iff k j)

  pub find-erase_cases :
      (k j : Text) (x : V) (m : TextMap V)
      → find j (erase k m) ≡ some x
      → (k ≢ j) × (find j m ≡ some x)
  find-erase_cases k j x m h = ground (arith, find-erase k j m, text_eq_iff k j)

-- Keys that the map tells apart are different.
pub keys_differ {ℓ} :
    {V : Type ℓ} (k j : Text) (m : TextMap V) {x : V} → find k m ≡ none → find j m ≡ some x → k ≢ j
keys_differ k j m h g e = cc (ap (λ t. find t m) e)

pub ruleset map_rules = (find-insert, find-erase)
