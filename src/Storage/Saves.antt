-- ===== src/Storage/Saves.antt =====
-- Histories after any messages were saved by server/ChatStorage.cc.
use chat_service.Base.{
  ℕ, Text, true, List, [], ◌∷◌, Option, none, some, codes, text_eq, text_eq_iff, Every,
  Every-append, ◌≡◌, refl, arith, Option-cases, inl, inr,
}
use chat_service.Names.{is_valid_name}
use chat_service.Storage.{
  private_row, room_row, save_row, save_private_message, save_room_message, load_private_history,
  load_history,
}
use chat_service.Storage.Database.{Row, StoredRow, Sqlite, IsTable}
use chat_service.Storage.Histories.{IsFiled, IsBetween, load_private_history-IsBetween}

-- What the server saves: the sender, the receiver or the room, the text and the time.
pub data Save : Type 0 where
  private_message room_message : Text → Text → Text → ℕ → Save

-- The server lets only valid names be the two users of a private message.
abbrev pub IsNamed : Save → Type 0
IsNamed (private_message sender receiver content time) =
    (is_valid_name sender ≡ true) × (is_valid_name receiver ≡ true)
IsNamed (room_message room sender content time) = Unit {0}

private_row-IsFiled :
    (sender receiver content : Text) (time id : ℕ)
    → is_valid_name sender ≡ true
    → is_valid_name receiver ≡ true
    → IsFiled (record { id = id; row = private_row sender receiver content time })
unfolding private_row
private_row-IsFiled sender receiver content time id vs vr = record {
  filed = λ e. (receiver, refl, vs, vr, refl);
}

room_row-IsFiled :
    (room sender content : Text) (time id : ℕ)
    → IsFiled (record { id = id; row = room_row room sender content time })
unfolding room_row codes text_eq
room_row-IsFiled room sender content time id = record {
  filed =
      λ e. let other = (text_eq_iff (codes "room") (codes "private")).1 e in absurd (ground arith);
}

module _ {Db : Type 0} (sqlite : Sqlite Db) where
  unfoldable pub save : Save → Option Db → Option Db
  unfolding save_private_message save_room_message
  save (private_message sender receiver content time) db =
      (save_private_message sqlite sender receiver content time db).1
  save (room_message room sender content time) db =
      (save_room_message sqlite room sender content time db).1

  unfoldable pub save_each : List Save → Option Db → Option Db
  unfolding save
  save_each [] db = db
  save_each (s ∷ ss) db = save_each ss (save s db)

module _ {Db : Type 0} (sqlite : Sqlite Db) (rows : Db → List StoredRow)
    (table : IsTable sqlite rows) where
  -- All rows, if a database is open.
  abbrev pub rows_of : Option Db → List StoredRow
  rows_of none = []
  rows_of (some db) = rows db

  save_row-Every :
      (P : StoredRow → Type 0) (r : Row) (db : Option Db)
      → ((id : ℕ) → P (record { id = id; row = r }))
      → Every P (rows_of db)
      → Every P (rows_of (save_row sqlite r db).1)
  unfolding save_row
  save_row-Every P r none p h = tt
  save_row-Every P r (some db) p h = elim (Option-cases (sqlite.insert_row r db).0) [
    | inl k ↦ rw (table.not_inserted r db k) h
    | inr (id, k) ↦
        rw ((table.inserted r db id k).0)
          (Every-append P (rows db) (record { id = id; row = r } ∷ []) h (p id, tt))
  ]

  save-IsFiled :
      (s : Save) (db : Option Db)
      → IsNamed s
      → Every IsFiled (rows_of db)
      → Every IsFiled (rows_of (save sqlite s db))
  unfolding save save_private_message save_room_message
  save-IsFiled (private_message sender receiver content time) db v h =
      save_row-Every IsFiled (private_row sender receiver content time) db
        (λ id. private_row-IsFiled sender receiver content time id v.0 v.1) h
  save-IsFiled (room_message room sender content time) db v h =
      save_row-Every IsFiled (room_row room sender content time) db
        (λ id. room_row-IsFiled room sender content time id) h

  save_each-IsFiled :
      (ss : List Save) (db : Option Db)
      → Every IsNamed ss
      → Every IsFiled (rows_of db)
      → Every IsFiled (rows_of (save_each sqlite ss db))
  unfolding save_each
  save_each-IsFiled [] db v h = h
  save_each-IsFiled (s ∷ ss) db v h =
      save_each-IsFiled ss (save sqlite s db) v.1 (save-IsFiled s db v.0 h)

  history-IsBetween :
      (a b : Text) (limit before : ℕ) (db : Option Db)
      → is_valid_name a ≡ true
      → is_valid_name b ≡ true
      → Every IsFiled (rows_of db)
      → Every (IsBetween a b) (load_private_history sqlite a b limit before db)
  unfolding load_private_history load_history
  history-IsBetween a b limit before none va vb h = tt
  history-IsBetween a b limit before (some db) va vb h =
      load_private_history-IsBetween sqlite rows table a b limit before db va vb h

  -- With a database that does as SQLite documents and has no rows at first, or with none that is open:
  -- whatever private messages between valid names and whatever room messages are saved, whether
  -- single saves fail or not, the private history of two valid names has nothing in it but messages
  -- from one of the two to the other, whatever its limit and its bound are.
  pub save_each-IsBetween :
      (db : Option Db) (ss : List Save) (a b : Text) (limit before : ℕ)
      → rows_of db ≡ []
      → Every IsNamed ss
      → is_valid_name a ≡ true
      → is_valid_name b ≡ true
      → Every
          (IsBetween a b)
          (load_private_history sqlite a b limit before (save_each sqlite ss db))
  save_each-IsBetween db ss a b limit before none_yet named va vb =
      history-IsBetween a b limit before (save_each sqlite ss db) va vb
        (save_each-IsFiled ss db named (rw none_yet tt))
