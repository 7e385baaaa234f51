-- ===== src/Storage/Database.antt =====
-- What server/ChatStorage.cc uses of SQLite, which is not part of the repository: the calls as the
-- fields of a record, and what the documentation of SQLite says of them as laws.
use chat_service.Base.{
  ℕ, ◌<◌, Text, Bool, ◌&&◌, ◌||◌, List, [], ◌∷◌, ◌++◌, Option, none, some, text_eq, ltb, ◌==◌, take,
  Every, if◌then◌else◌, ◌≡◌,
}

-- The columns of the table `messages` that an INSERT gives; `none` is NULL.
pub record Row : Type 0 where
  pub conversation_type : Text
  pub conversation_id : Text
  pub sender : Text
  pub receiver : Option Text
  pub room_id : Option Text
  pub content : Text
  pub created_at : ℕ

pub record StoredRow : Type 0 where
  pub id : ℕ
  pub row : Row

-- `insert` and `select` are each a statement that is prepared, bound, stepped through and finalized.
pub record Sqlite (Db : Type 0) : Type 0 where
  -- sqlite3_open, `none` if it fails
  pub open_file : Text → Option Db
  -- sqlite3_exec, `none` if it fails
  pub exec : Text → Db → Option Db
  -- the INSERT of a row: its id, or `none` if a step fails
  pub insert_row : Row → Db → Option ℕ × Db
  -- the SELECT of a conversation, with the bound of the times and the limit; `none` if it cannot be
  -- prepared
  pub select_rows : Text → Text → ℕ → ℕ → Db → Option (List StoredRow)
  -- the SELECT of all rows, with the answer of `sqlite3_finalize`
  pub select_all : Db → Option (List StoredRow × Bool)
  -- sqlite3_errmsg
  pub message_of : Db → Text

-- WHERE conversation_type = ? AND conversation_id = ? AND (? <= 0 OR created_at < ?)
unfoldable pub is_selected : Text → Text → ℕ → StoredRow → Bool
is_selected type conversation before r =
    text_eq r.row.conversation_type type
    && text_eq r.row.conversation_id conversation
    && (before == 0 || ltb r.row.created_at before)

unfoldable pub selected : Text → Text → ℕ → List StoredRow → List StoredRow
unfolding is_selected
selected type conversation before [] = []
selected type conversation before (r ∷ rs) =
    let more = selected type conversation before rs in
    if is_selected type conversation before r then r ∷ more else more

-- ORDER BY created_at DESC, id DESC
abbrev pub is_newer : StoredRow → StoredRow → Bool
is_newer r s =
    ltb s.row.created_at r.row.created_at || (s.row.created_at == r.row.created_at && ltb s.id r.id)

unfoldable pub place : StoredRow → List StoredRow → List StoredRow
place r [] = r ∷ []
place r (s ∷ ss) = let later = place r ss in if is_newer r s then r ∷ s ∷ ss else s ∷ later

unfoldable pub newest_first : List StoredRow → List StoredRow
unfolding place
newest_first [] = []
newest_first (r ∷ rs) = place r (newest_first rs)

-- The documented behaviour: `rows` are the rows of the table, in the order of their ids.
pub record IsTable {Db : Type 0} (sqlite : Sqlite Db) (rows : Db → List StoredRow) : Type 0 where
  -- A row that is inserted stands in the table under the id that is handed back, which is above all
  -- ids before (AUTOINCREMENT); an INSERT that fails changes no row.
  pub inserted :
      (r : Row) (db : Db) (id : ℕ)
      → (sqlite.insert_row r db).0 ≡ some id
      → (rows (sqlite.insert_row r db).1 ≡ rows db ++ record { id = id; row = r } ∷ [])
        × Every (λ s. s.id < id) (rows db)
  pub not_inserted :
      (r : Row) (db : Db)
      → (sqlite.insert_row r db).0 ≡ none
      → rows (sqlite.insert_row r db).1 ≡ rows db
  -- A SELECT that can be prepared and runs to its end yields the rows of its conditions, in its order,
  -- up to its limit.
  pub selects :
      (type conversation : Text) (before limit : ℕ) (db : Db) (rs : List StoredRow)
      → sqlite.select_rows type conversation before limit db ≡ some rs
      → rs ≡ take limit (newest_first (selected type conversation before (rows db)))
