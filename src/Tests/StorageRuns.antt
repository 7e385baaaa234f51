-- ===== src/Tests/StorageRuns.antt =====
-- server/ChatStorage.cc on a database that keeps its rows in a list.
use chat_service.Base.{
  ℕ, suc, List, [], ◌∷◌, ◌++◌, codes, some, true, ◌≡◌, ◌↔◌, ◌⊎◌, ◌<◌, ◌≤◌, refl, sym, arith, take,
  Every, is_empty, if◌then◌else◌, ltb,
}
use chat_service.Names.{is_valid_name}
use chat_service.Server.State.{Message}
use chat_service.Storage.{
  private_row, private_conversation_id, private_conversation_id, sanitize_limit, save_row,
  save_private_message, load_private_history, load_history,
}
use chat_service.Storage.Conversations.{private_conversation_id_iff}
use chat_service.Storage.Database.{Row, StoredRow, Sqlite, IsTable, selected, newest_first}
use chat_service.Storage.Histories.{IsBetween}
use chat_service.Storage.RoundTrip.{saved_message, save-load_private_history}
use chat_service.Storage.Saves.{
  Save, private_message, room_message, IsNamed, save_each, save_each-IsBetween,
}
use chat_service.Storage.Window.{IsWindow, load_history-IsWindow}

-- An id above those of all rows.
unfoldable pub next_id : List StoredRow → ℕ
next_id [] = 1
next_id (r ∷ rs) = let n = next_id rs in if ltb r.id n then n else suc r.id

abbrev pub with_row : Row → List StoredRow → List StoredRow
with_row r rows = rows ++ record { id = next_id rows; row = r } ∷ []

abbrev pub listed : Sqlite (List StoredRow)
listed = record {
  open_file = λ path. some [];
  exec = λ sql rows. some rows;
  insert_row = λ r rows. (some (next_id rows), with_row r rows);
  select_rows = λ type conversation before limit rows.
      some (take limit (newest_first (selected type conversation before rows)));
  select_all = λ rows. some (rows, true);
  message_of = λ rows. [];
}

Every-weaken :
    (m n : ℕ) (rows : List StoredRow)
    → m ≤ n
    → Every (λ s. s.id < m) rows
    → Every (λ s. s.id < n) rows
Every-weaken m n [] h a = tt
Every-weaken m n (r ∷ rows) h a = (omega (arith, a.0), Every-weaken m n rows h a.1)

next_id-above : (rows : List StoredRow) → Every (λ s. s.id < next_id rows) rows
unfolding next_id
next_id-above [] = tt
next_id-above (r ∷ rows) = (
  ground arith,
  Every-weaken (next_id rows) (next_id (r ∷ rows)) rows (ground arith) (next_id-above rows),
)

listed-IsTable : IsTable listed (λ rows. rows)
listed-IsTable = record {
  inserted = λ r rows id h. let e : next_id rows ≡ id = cc in rw (sym e) (refl, next_id-above rows);
  not_inserted = λ r rows h. absurd (ground arith);
  selects = λ type conversation before limit rows rs h. cc;
}

ann : is_valid_name (codes "ann") ≡ true
unfolding is_valid_name is_empty codes
ann = refl

bob : is_valid_name (codes "bob") ≡ true
unfolding is_valid_name is_empty codes
bob = refl

private_conversation_id_iff_example :
    (private_conversation_id (codes "ann") (codes "bob")
      ≡ private_conversation_id (codes "bob") (codes "ann"))
    ↔ (((codes "ann" ≡ codes "bob") × (codes "bob" ≡ codes "ann"))
        ⊎ ((codes "ann" ≡ codes "ann") × (codes "bob" ≡ codes "bob")))
private_conversation_id_iff_example =
    private_conversation_id_iff (codes "ann") (codes "bob") (codes "bob") (codes "ann") ann bob bob
      ann

abbrev saves : List Save
saves =
    private_message (codes "ann") (codes "bob") (codes "hi") 20
    ∷ room_message (codes "den") (codes "ann") (codes "all") 21
    ∷ private_message (codes "bob") (codes "bob") (codes "me") 22
    ∷ []

saves-IsNamed : Every IsNamed saves
saves-IsNamed = ((ann, bob), (tt, ((bob, bob), tt)))

save_each-IsBetween_example :
    Every (IsBetween (codes "bob") (codes "ann")) (
      load_private_history listed
        (codes "bob")
        (codes "ann")
        5
        0
        (save_each listed saves (some [])))
save_each-IsBetween_example =
    save_each-IsBetween listed (λ rows. rows) listed-IsTable (some []) saves (codes "bob")
      (codes "ann") 5 0 refl saves-IsNamed bob ann

load_history-IsWindow_example :
    IsWindow 0
      (load_history listed (codes "room") (codes "den") 0 22 (save_each listed saves (some [])))
    × Every
        (λ m. (◌≡◌ {A = ℕ} 22 0) ⊎ (m.created_at < 22))
        (load_history listed (codes "room") (codes "den") 0 22 (save_each listed saves (some [])))
load_history-IsWindow_example =
    load_history-IsWindow listed (λ rows. rows) listed-IsTable (codes "room") (codes "den") 0 22
      (save_each listed saves (some []))

abbrev pub first_row : List StoredRow
first_row = record { id = 1; row = private_row (codes "bob") (codes "ann") (codes "yo") 19 } ∷ []

first_row-IsEarlier : Every (λ s. s.row.created_at ≤ 20) first_row
unfolding private_row
first_row-IsEarlier = (omega arith, tt)

first_row-next :
    (save_private_message listed (codes "ann") (codes "bob") (codes "hi") 20 (some first_row)).0
    ≡ some 2
unfolding save_private_message save_row next_id
first_row-next = refl

save-load_private_history_example :
    (ms : List Message) × (load_private_history listed
        (codes "ann")
        (codes "bob")
        9
        0
        (save_private_message listed (codes "ann") (codes "bob") (codes "hi") 20 (some first_row)).1
      ≡ ms ++ saved_message (codes "ann") (codes "bob") (codes "hi") 20 2 ∷ [])
    × (load_private_history listed
          (codes "bob")
          (codes "ann")
          9
          0
          (save_private_message listed
            (codes "ann")
            (codes "bob")
            (codes "hi")
            20
            (some first_row)).1
        ≡ ms ++ saved_message (codes "ann") (codes "bob") (codes "hi") 20 2 ∷ [])
save-load_private_history_example =
    save-load_private_history listed (λ rows. rows) listed-IsTable (codes "ann") (codes "bob")
      (codes "hi") 9 20 2 first_row
      (take (sanitize_limit 9) (
        newest_first (
          selected (codes "private") (private_conversation_id (codes "ann") (codes "bob")) 0
            (with_row (private_row (codes "ann") (codes "bob") (codes "hi") 20) first_row))))
      first_row-next first_row-IsEarlier refl
