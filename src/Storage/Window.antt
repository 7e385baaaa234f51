-- ===== src/Storage/Window.antt =====
-- Which part of a conversation `loadPrivateHistory` and `loadRoomHistory` of server/ChatStorage.cc
-- return, and in which order.
use mathlib.Core.List.{append_assoc}
use chat_service.Base.{
  ℕ, zero, suc, ◌≤◌, ◌<◌, ◌+◌, Text, false, List, [], ◌∷◌, ◌++◌, Option, none, some, length, take,
  Every, Every-take, Every-map, ◌≡◌, ◌⊎◌, inl, inr, refl, sym, ap, ◌∙◌, arith, Bool-cases,
  Option-cases,
}
use chat_service.Server.State.{Message}
use chat_service.Storage.{
  sanitize_limit, message_from_statement, reversed_messages, history_of, load_history,
}
use chat_service.Storage.Database.{
  StoredRow, Sqlite, IsTable, is_selected, selected, is_newer, place, newest_first,
}
use chat_service.Storage.Histories.{place-Every, load_history-Every}

-- The times fall from row to row.
abbrev Falls : List StoredRow → Type 0
Falls [] = Unit {0}
Falls (r ∷ rs) = Every (λ s. s.row.created_at ≤ r.row.created_at) rs × Falls rs

-- The times rise from message to message.
abbrev pub Rises : List Message → Type 0
Rises [] = Unit {0}
Rises (m ∷ ms) = Every (λ n. m.created_at ≤ n.created_at) ms × Rises ms

place-Falls : (r : StoredRow) (ss : List StoredRow) → Falls ss → Falls (place r ss)
unfolding place
place-Falls r [] h = (tt, tt)
place-Falls r (s ∷ ss) h = elim (Bool-cases (is_newer r s)) [
  | inl k ↦
      let le : s.row.created_at ≤ r.row.created_at = ground arith in
      rw k ((le, Every-map _ _ (λ q l. omega (arith, l, le)) ss h.0), h)
  | inr k ↦
      let le : r.row.created_at ≤ s.row.created_at = ground arith in
      rw k
        (place-Every (λ q. q.row.created_at ≤ s.row.created_at) r ss le h.0, place-Falls r ss h.1)
]

newest_first-Falls : (rs : List StoredRow) → Falls (newest_first rs)
unfolding newest_first
newest_first-Falls [] = tt
newest_first-Falls (r ∷ rs) = place-Falls r (newest_first rs) (newest_first-Falls rs)

take-Falls : (n : ℕ) (rs : List StoredRow) → Falls rs → Falls (take n rs)
take-Falls zero rs h = tt
take-Falls (suc n) [] h = tt
take-Falls (suc n) (r ∷ rs) h = (Every-take _ n rs h.0, take-Falls n rs h.1)

reversed-Rises :
    (rs : List StoredRow) (done : List Message)
    → Falls rs
    → Rises done
    → Every (λ m. Every (λ r. r.row.created_at ≤ m.created_at) rs) done
    → Rises (reversed_messages rs done)
unfolding reversed_messages message_from_statement
reversed-Rises [] done f h k = h
reversed-Rises (r ∷ rs) done f h k =
    reversed-Rises rs (message_from_statement r ∷ done) f.1 (Every-map _ _ (λ m l. l.0) done k, h)
      (f.0, Every-map _ _ (λ m l. l.1) done k)

length-reversed :
    (rs : List StoredRow) (done : List Message)
    → length (reversed_messages rs done) ≡ length rs + length done
unfolding reversed_messages
length-reversed [] done = omega arith
length-reversed (r ∷ rs) done = omega (arith, length-reversed rs (message_from_statement r ∷ done))

length-take : (n : ℕ) (rs : List StoredRow) → length (take n rs) ≤ n
length-take zero rs = omega arith
length-take (suc n) [] = omega arith
length-take (suc n) (r ∷ rs) = omega (arith, length-take n rs)

-- The limit that is used.
sanitize_limit-bounds :
    (limit n : ℕ)
    → n ≤ sanitize_limit limit
    → (n ≤ 500) × ((limit ≡ 0) ⊎ (n ≤ limit)) × ((0 < limit) ⊎ (n ≤ 50))
unfolding sanitize_limit
sanitize_limit-bounds limit n h = ground arith

-- How many messages, and in which order.
abbrev pub IsWindow : ℕ → List Message → Type 0
IsWindow limit ms =
    ((length ms ≤ 500) × ((limit ≡ 0) ⊎ (length ms ≤ limit)) × ((0 < limit) ⊎ (length ms ≤ 50)))
    × Rises ms

reversed-IsWindow :
    (limit : ℕ) (rs : List StoredRow)
    → Falls rs
    → IsWindow limit (reversed_messages (take (sanitize_limit limit) rs) [])
reversed-IsWindow limit rs f =
    let n = sanitize_limit limit in
    (
      sanitize_limit-bounds limit _
          (omega (arith, length-reversed (take n rs) [], length-take n rs)),
      reversed-Rises (take n rs) [] (take-Falls n rs f) tt tt,
    )

empty-IsWindow : (limit : ℕ) → IsWindow limit []
empty-IsWindow limit = (sanitize_limit-bounds limit 0 (omega arith), tt)

Every-unit : (rs : List StoredRow) → Every (λ r. Unit {0}) rs
Every-unit [] = tt
Every-unit (r ∷ rs) = (tt, Every-unit rs)

module _ {Db : Type 0} (sqlite : Sqlite Db) (rows : Db → List StoredRow)
    (table : IsTable sqlite rows) where
  load_history-before :
      (type conversation : Text) (limit before : ℕ) (db : Option Db)
      → Every
          (λ m. (before ≡ 0) ⊎ (m.created_at < before))
          (load_history sqlite type conversation limit before db)
  unfolding load_history
  load_history-before type conversation limit before none = tt
  load_history-before type conversation limit before (some db) =
      load_history-Every sqlite rows table (λ r. Unit {0})
        (λ m. (before ≡ 0) ⊎ (m.created_at < before)) type conversation limit before db
        (Every-unit (rows db)) λ r (u, s). unfold is_selected message_from_statement in ground arith

  limits :
      (type conversation : Text) (limit before : ℕ) (db : Option Db)
      → IsWindow limit (load_history sqlite type conversation limit before db)
  unfolding load_history history_of
  limits type conversation limit before none = empty-IsWindow limit
  limits type conversation limit before (some db) =
      elim (Option-cases (sqlite.select_rows type conversation before (sanitize_limit limit) db)) [
        | inl k ↦ rw (k, history_of) (empty-IsWindow limit)
        | inr (rs, k) ↦
            rw
              (k, history_of, table.selects type conversation before (sanitize_limit limit) db rs k)
              (reversed-IsWindow limit _
                (newest_first-Falls (selected type conversation before (rows db))))
      ]

  -- With a database that does as SQLite documents, open or not: a history has at most as many
  -- messages as it is asked for, at most 50 if it is asked for 0, and never more than 500; their times
  -- never fall, and all are before the bound, unless the bound is 0.
  pub load_history-IsWindow :
      (type conversation : Text) (limit before : ℕ) (db : Option Db)
      → IsWindow limit (load_history sqlite type conversation limit before db)
        × Every
            (λ m. (before ≡ 0) ⊎ (m.created_at < before))
            (load_history sqlite type conversation limit before db)
  load_history-IsWindow type conversation limit before db = (
    limits type conversation limit before db,
    load_history-before type conversation limit before db,
  )

-- A row newer than all others comes first.
pub newest_first-last :
    (r : StoredRow) (rs : List StoredRow)
    → Every (λ s. is_newer s r ≡ false) rs
    → newest_first (rs ++ r ∷ []) ≡ r ∷ newest_first rs
unfolding newest_first place
newest_first-last r [] h = refl
newest_first-last r (s ∷ rs) h = ap (place s) (newest_first-last r rs h.1) ∙ rw (h.0, place) refl

pub selected-append :
    (type conversation : Text) (before : ℕ) (rs ss : List StoredRow)
    → selected type conversation before (rs ++ ss)
      ≡ selected type conversation before rs ++ selected type conversation before ss
unfolding selected
selected-append type conversation before [] ss = refl
selected-append type conversation before (r ∷ rs) ss =
    elim (Bool-cases (is_selected type conversation before r)) [
      | inl k ↦ rw k (ap (λ x. r ∷ x) (selected-append type conversation before rs ss))
      | inr k ↦ rw k (selected-append type conversation before rs ss)
    ]

pub reversed-append :
    (rs : List StoredRow) (done : List Message)
    → reversed_messages rs done ≡ reversed_messages rs [] ++ done
unfolding reversed_messages
reversed-append [] done = refl
reversed-append (r ∷ rs) done =
    reversed-append rs (message_from_statement r ∷ done)
    ∙ sym (append_assoc (reversed_messages rs []) (message_from_statement r ∷ []) done)
    ∙ ap (λ x. x ++ done) (sym (reversed-append rs (message_from_statement r ∷ [])))
