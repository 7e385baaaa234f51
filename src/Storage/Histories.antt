-- ===== src/Storage/Histories.antt =====
-- What `loadPrivateHistory` and `loadRoomHistory` of server/ChatStorage.cc may return.
use chat_service.Base.{
  ℕ, Text, true, List, [], ◌∷◌, some, codes, text_eq_iff, Every, Every-take, ◌≡◌, ◌⊎◌, inl, inr,
  sym, ◌∙◌, arith, Bool-cases, Option-cases,
}
use chat_service.Names.{is_valid_name}
use chat_service.Server.State.{Message}
use chat_service.Storage.{
  sanitize_limit, column_text, message_from_statement, reversed_messages, private_conversation_id,
  history_of, load_history, load_private_history,
}
use chat_service.Storage.Conversations.{same_users, valid-c_string}
use chat_service.Storage.Database.{
  StoredRow, Sqlite, IsTable, is_selected, selected, is_newer, place, newest_first,
}

module _ (P : StoredRow → Type 0) where
  pub place-Every : (r : StoredRow) (ss : List StoredRow) → P r → Every P ss → Every P (place r ss)
  unfolding place
  place-Every r [] p h = (p, tt)
  place-Every r (s ∷ ss) p h = elim (Bool-cases (is_newer r s)) [
    | inl k ↦ rw k (p, h)
    | inr k ↦ rw k (h.0, place-Every r ss p h.1)
  ]

  newest_first-Every : (rs : List StoredRow) → Every P rs → Every P (newest_first rs)
  unfolding newest_first
  newest_first-Every [] h = tt
  newest_first-Every (r ∷ rs) h = place-Every r (newest_first rs) h.0 (newest_first-Every rs h.1)

-- Every row that is selected meets the conditions, and what the whole table meets.
selected-Every :
    (P : StoredRow → Type 0) (type conversation : Text) (before : ℕ) (rs : List StoredRow)
    → Every P rs
    → Every
        (λ r. P r × (is_selected type conversation before r ≡ true))
        (selected type conversation before rs)
unfolding selected
selected-Every P type conversation before [] h = tt
selected-Every P type conversation before (r ∷ rs) h =
    elim (Bool-cases (is_selected type conversation before r)) [
      | inl k ↦ rw k ((h.0, k), selected-Every P type conversation before rs h.1)
      | inr k ↦ rw k (selected-Every P type conversation before rs h.1)
    ]

reversed_messages-Every :
    (P : StoredRow → Type 0) (Q : Message → Type 0)
    → ((r : StoredRow) → P r → Q (message_from_statement r))
    → (rs : List StoredRow) (done : List Message) → Every P rs
    → Every Q done
    → Every Q (reversed_messages rs done)
unfolding reversed_messages
reversed_messages-Every P Q f [] done h k = k
reversed_messages-Every P Q f (r ∷ rs) done h k =
    reversed_messages-Every P Q f rs (message_from_statement r ∷ done) h.1 (f r h.0, k)

module _ {Db : Type 0} (sqlite : Sqlite Db) (rows : Db → List StoredRow)
    (table : IsTable sqlite rows) where
  -- What holds of the messages of all selected rows holds of the history.
  pub load_history-Every :
      (P : StoredRow → Type 0) (Q : Message → Type 0) (type conversation : Text) (limit before : ℕ)
      (db : Db)
      → Every P (rows db)
      → ((r : StoredRow)
          → P r × (is_selected type conversation before r ≡ true)
          → Q (message_from_statement r))
      → Every Q (load_history sqlite type conversation limit before (some db))
  unfolding load_history history_of
  load_history-Every P Q type conversation limit before db h f =
      elim (Option-cases (sqlite.select_rows type conversation before (sanitize_limit limit) db)) [
        | inl k ↦ rw (k, history_of) tt
        | inr (rs, k) ↦
            rw
              (k, history_of, table.selects type conversation before (sanitize_limit limit) db rs k)
              (reversed_messages-Every _ Q f _ []
                (Every-take _ (sanitize_limit limit) _
                  (newest_first-Every _ _ (selected-Every P type conversation before (rows db) h)))
                tt)
      ]

-- A row of a private message has two valid names in it and is filed under both.
pub record IsFiled (r : StoredRow) : Type 0 where
  pub filed :
      r.row.conversation_type ≡ codes "private"
      → (receiver : Text) × (r.row.receiver ≡ some receiver)
        × (is_valid_name r.row.sender ≡ true)
        × (is_valid_name receiver ≡ true)
        × (r.row.conversation_id ≡ private_conversation_id r.row.sender receiver)

-- From one of the two to the other.
abbrev pub IsBetween : Text → Text → Message → Type 0
IsBetween a b m = ((m.sender ≡ a) × (m.receiver ≡ b)) ⊎ ((m.sender ≡ b) × (m.receiver ≡ a))

filed-IsBetween :
    (a b : Text) (before : ℕ) (r : StoredRow)
    → is_valid_name a ≡ true
    → is_valid_name b ≡ true
    → IsFiled r × (is_selected (codes "private") (private_conversation_id a b) before r ≡ true)
    → IsBetween a b (message_from_statement r)
unfolding message_from_statement column_text is_selected
filed-IsBetween a b before r va vb (f, s) =
    let type = (text_eq_iff r.row.conversation_type (codes "private")).0 (ground arith) in
    let conversation =
      (text_eq_iff r.row.conversation_id (private_conversation_id a b)).0 (ground arith) in
    let (v, to, vs, vv, id) = f.filed type in
    elim (same_users r.row.sender v a b vs vv va vb (sym id ∙ conversation)) [
      | inl (e, g) ↦ inl (valid-c_string r.row.sender vs ∙ e, rw to (valid-c_string v vv ∙ g))
      | inr (e, g) ↦ inr (valid-c_string r.row.sender vs ∙ e, rw to (valid-c_string v vv ∙ g))
    ]

module _ {Db : Type 0} (sqlite : Sqlite Db) (rows : Db → List StoredRow)
    (table : IsTable sqlite rows) where
  pub load_private_history-IsBetween :
      (a b : Text) (limit before : ℕ) (db : Db)
      → is_valid_name a ≡ true
      → is_valid_name b ≡ true
      → Every IsFiled (rows db)
      → Every (IsBetween a b) (load_private_history sqlite a b limit before (some db))
  unfolding load_private_history
  load_private_history-IsBetween a b limit before db va vb h =
      load_history-Every sqlite rows table IsFiled (IsBetween a b) (codes "private")
        (private_conversation_id a b) limit before db h λ r. filed-IsBetween a b before r va vb
