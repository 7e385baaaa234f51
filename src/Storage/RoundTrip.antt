-- ===== src/Storage/RoundTrip.antt =====
-- A message that server/ChatStorage.cc has saved is in the history of its conversation.
use chat_service.Base.{
  ℕ, zero, suc, ◌≤◌, ◌<◌, Text, true, false, List, [], ◌∷◌, ◌++◌, some, codes, text_eq_refl, take,
  Every, ◌≡◌, refl, ap, ◌∙◌, arith, Bool-cases, inl, inr,
}
use chat_service.Server.State.{Message}
use chat_service.Storage.{
  c_string, column_text, sanitize_limit, message_from_statement, reversed_messages, history_of,
  load_history, load_private_history, save_row, save_private_message, private_row,
  private_conversation_id,
}
use chat_service.Storage.Conversations.{private_conversation_id_comm}
use chat_service.Storage.Database.{
  Row, StoredRow, Sqlite, IsTable, is_selected, selected, is_newer, newest_first,
}
use chat_service.Storage.Window.{newest_first-last, selected-append, reversed-append}

-- What is known of all rows is known of those that are selected.
selected-keeps :
    (P : StoredRow → Type 0) (type conversation : Text) (before : ℕ) (rs : List StoredRow)
    → Every P rs
    → Every P (selected type conversation before rs)
unfolding selected
selected-keeps P type conversation before [] h = tt
selected-keeps P type conversation before (r ∷ rs) h =
    elim (Bool-cases (is_selected type conversation before r)) [
      | inl k ↦ rw k (h.0, selected-keeps P type conversation before rs h.1)
      | inr k ↦ rw k (selected-keeps P type conversation before rs h.1)
    ]

-- What is read back of a private message.
abbrev pub saved_message : Text → Text → Text → ℕ → ℕ → Message
saved_message sender receiver content time id = record {
  id = id;
  conversation_type = codes "private";
  conversation_id = c_string (private_conversation_id sender receiver);
  sender = c_string sender;
  receiver = c_string receiver;
  room_id = [];
  content = c_string content;
  created_at = time;
}

message_of_row :
    (sender receiver content : Text) (time id : ℕ)
    → message_from_statement (record { id = id; row = private_row sender receiver content time })
      ≡ saved_message sender receiver content time id
unfolding message_from_statement private_row column_text codes c_string
message_of_row sender receiver content time id = refl

-- The newest row is the last message.
window-last :
    (limit : ℕ) (r : StoredRow) (rs : List StoredRow)
    → (ms : List Message) × (reversed_messages (take (sanitize_limit limit) (r ∷ rs)) []
        ≡ ms ++ message_from_statement r ∷ [])
window-last limit r rs = counted (sanitize_limit limit) (unfold sanitize_limit in ground arith)
  where
    counted :
        (n : ℕ)
        → 0 < n
        → (ms : List Message) × (reversed_messages (take n (r ∷ rs)) []
            ≡ ms ++ message_from_statement r ∷ [])
    counted zero h = absurd (omega arith)
    counted (suc n) h = (
      reversed_messages (take n rs) [],
      unfold reversed_messages in reversed-append (take n rs) (message_from_statement r ∷ []),
    )

private_row-selected :
    (sender receiver content : Text) (time id : ℕ)
    → is_selected
        (codes "private")
        (private_conversation_id sender receiver)
        0
        (record { id = id; row = private_row sender receiver content time })
      ≡ true
unfolding is_selected private_row
private_row-selected sender receiver content time id =
    ground (
      arith,
      text_eq_refl (codes "private"),
      text_eq_refl (private_conversation_id sender receiver),
    )

selected-one :
    (type conversation : Text) (before : ℕ) (r : StoredRow)
    → is_selected type conversation before r ≡ true
    → selected type conversation before (r ∷ []) ≡ r ∷ []
unfolding selected
selected-one type conversation before r h = rw h refl

-- A row that is not later and has a smaller id is not newer.
older :
    (time id : ℕ) (r : Row)
    → r.created_at ≡ time
    → (rs : List StoredRow) → Every (λ s. s.row.created_at ≤ time) rs
    → Every (λ s. s.id < id) rs
    → Every (λ s. is_newer s (record { id = id; row = r }) ≡ false) rs
older time id r e [] h k = tt
older time id r e (s ∷ rs) h k = (ground (arith, e, h.0, k.0), older time id r e rs h.1 k.1)

module _ {Db : Type 0} (sqlite : Sqlite Db) (rows : Db → List StoredRow)
    (table : IsTable sqlite rows) where
  -- The rows of the conversation after the INSERT, newest first.
  newest-saved :
      (sender receiver content : Text) (time id : ℕ) (db : Db)
      → let r = private_row sender receiver content time in
        let conversation = private_conversation_id sender receiver in
        (sqlite.insert_row r db).0 ≡ some id
        → Every (λ s. s.row.created_at ≤ time) (rows db)
        → newest_first (selected (codes "private") conversation 0 (rows (sqlite.insert_row r db).1))
          ≡ record { id = id; row = r }
            ∷ newest_first (selected (codes "private") conversation 0 (rows db))
  newest-saved sender receiver content time id db saved earlier =
      let new : StoredRow = record { id = id; row = private_row sender receiver content time } in
      let conversation = private_conversation_id sender receiver in
      let table' = table.inserted (private_row sender receiver content time) db id saved in
      ap (λ x. newest_first (selected (codes "private") conversation 0 x)) table'.0
      ∙ ap newest_first (
          selected-append (codes "private") conversation 0 (rows db) (new ∷ [])
          ∙ ap (λ x. selected (codes "private") conversation 0 (rows db) ++ x)
              (selected-one (codes "private") conversation 0 new
                (private_row-selected sender receiver content time id)))
      ∙ newest_first-last new (selected (codes "private") conversation 0 (rows db)) (
          selected-keeps (λ s. is_newer s new ≡ false) (codes "private") conversation 0 (rows db)
            (older time id (private_row sender receiver content time) (unfold private_row in refl)
              (rows db) earlier table'.1))

  load-saved :
      (sender receiver content : Text) (limit time id : ℕ) (db : Db) (rs : List StoredRow)
      → let r = private_row sender receiver content time in
        let conversation = private_conversation_id sender receiver in
        (sqlite.insert_row r db).0 ≡ some id
        → Every (λ s. s.row.created_at ≤ time) (rows db)
        → sqlite.select_rows
            (codes "private")
            conversation
            0
            (sanitize_limit limit)
            (sqlite.insert_row r db).1
          ≡ some rs
        → (ms : List Message) × (load_history sqlite
              (codes "private")
              conversation
              limit
              0
              (some (sqlite.insert_row r db).1)
            ≡ ms ++ message_from_statement (record { id = id; row = r }) ∷ [])
  unfolding load_history history_of
  load-saved sender receiver content limit time id db rs saved earlier read =
      let r = private_row sender receiver content time in
      let conversation = private_conversation_id sender receiver in
      let after = (sqlite.insert_row r db).1 in
      let w =
        window-last limit (record { id = id; row = r })
          (newest_first (selected (codes "private") conversation 0 (rows db))) in
      (
        w.0,
        ap (history_of sqlite) read
            ∙ ap (λ x. reversed_messages x [])
                (table.selects (codes "private") conversation 0 (sanitize_limit limit) after rs read
                  ∙ ap (take (sanitize_limit limit))
                      (newest-saved sender receiver content time id db saved earlier))
            ∙ w.1,
      )

  -- With a database that does as SQLite documents, in which no message is later: after a private
  -- message was saved under an id, and if the history can be read, the history of the two users ends
  -- with the message, whichever of them asks and whatever the limit is; its texts are what stands
  -- before the first byte 0 of those that were saved.
  pub save-load_private_history :
      (sender receiver content : Text) (limit time id : ℕ) (db : Db) (rs : List StoredRow)
      → let after = (save_private_message sqlite sender receiver content time (some db)).1 in
        (save_private_message sqlite sender receiver content time (some db)).0 ≡ some id
        → Every (λ s. s.row.created_at ≤ time) (rows db)
        → sqlite.select_rows
            (codes "private")
            (private_conversation_id sender receiver)
            0
            (sanitize_limit limit)
            (sqlite.insert_row (private_row sender receiver content time) db).1
          ≡ some rs
        → (ms : List Message) × (load_private_history sqlite sender receiver limit 0 after
            ≡ ms ++ saved_message sender receiver content time id ∷ [])
          × (load_private_history sqlite receiver sender limit 0 after
              ≡ ms ++ saved_message sender receiver content time id ∷ [])
  unfolding save_private_message save_row load_private_history
  save-load_private_history sender receiver content limit time id db rs saved earlier read =
      let (ms, e) = load-saved sender receiver content limit time id db rs saved earlier read in
      let after = (sqlite.insert_row (private_row sender receiver content time) db).1 in
      let found = e ∙ ap (λ m. ms ++ m ∷ []) (message_of_row sender receiver content time id) in
      (
        ms,
        found,
        ap (λ x. load_history sqlite (codes "private") x limit 0 (some after))
              (private_conversation_id_comm receiver sender)
            ∙ found,
      )
