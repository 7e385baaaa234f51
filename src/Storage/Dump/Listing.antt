-- ===== src/Storage/Dump/Listing.antt =====
-- A dump of server/ChatStorage.cc, line by line.
use mathlib.Core.List.{append_assoc}
use chat_service.Base.{
  ℕ, Text, Bool, true, false, List, [], ◌∷◌, ◌++◌, Option, some, codes, if◌then◌else◌, ◌≡◌, ◌↔◌,
  refl, sym, ap, ◌∙◌, arith,
}
use chat_service.Json.{escape_json_string, parse_json_object}
use chat_service.Json.Framing.{HasNoControl, HasNoControl-append, escape-HasNoControl}
use chat_service.Json.Parsed.{ok}
use chat_service.Server.Lines.Clients.{HasNoControl-HasNoBreak}
use chat_service.Server.Lines.Split.{HasNoBreak, lines_of, rest_of, lines_of-line, lines_of-append}
use chat_service.Server.Numbers.{int64_to_string}
use chat_service.Server.Numbers.Digits.{AreDigits, int64_to_string-AreDigits}
use chat_service.Server.State.{Message}
use chat_service.Status.{success}
use chat_service.Storage.{message_from_statement}
use chat_service.Storage.Database.{StoredRow, Sqlite}
use chat_service.Storage.Dump.{
  OutputFile, write_json_field, write_json_int_field, dumped_message, dumped_rows, dump_text,
  dump_all_messages_json, CanDump, dump-CanDump, CanDump-dump,
}
use chat_service.Storage.Dump.Lines.{full_object, parse-dumped_message}

-- A line is read back as the message of a row.
abbrev IsRow : Text → StoredRow → Type 0
IsRow line r = parse_json_object line ≡ ok (full_object (message_from_statement r)) []

-- The lines behind the first: one for each row, in their order, with a comma behind all but the last,
-- and then the closing bracket.
abbrev IsListing : List Text → List StoredRow → Type 0
IsListing lines [] = lines ≡ [] ∷ codes "]" ∷ []
IsListing lines (r ∷ []) = (line : Text) × (lines ≡ line ∷ codes "]" ∷ []) × IsRow line r
IsListing lines (r ∷ s ∷ rs) =
    (line : Text) × (more : List Text) × (lines ≡ (line ++ b',' ∷ []) ∷ more)
    × IsRow line r
    × IsListing more (s ∷ rs)

pub record IsDump (text : Text) (rs : List StoredRow) : Type 0 where
  pub lines : List Text
  pub opened : lines_of text ≡ codes "[" ∷ lines
  pub listed : IsListing lines rs
  pub whole : rest_of text ≡ []

AreDigits-HasNoControl : (s : Text) → AreDigits s → HasNoControl s
AreDigits-HasNoControl [] a = tt
AreDigits-HasNoControl (c ∷ s) a = (ground (arith, a.0), AreDigits-HasNoControl s a.1)

comma-HasNoControl : (first : Bool) → HasNoControl (if first then [] else b',' ∷ [])
comma-HasNoControl true = tt
comma-HasNoControl false = (omega arith, tt)

-- A name in quotes and its colon, before a value.
name-HasNoControl :
    (name value : Text)
    → HasNoControl value
    → HasNoControl (0x22 ∷ (escape_json_string name ++ 0x22 ∷ b':' ∷ value))
name-HasNoControl name value h = (
  omega arith,
  HasNoControl-append (escape_json_string name) (0x22 ∷ b':' ∷ value) (escape-HasNoControl name)
      (omega arith, (omega arith, h)),
)

write_json_field-HasNoControl :
    (name value : Text) (first : Bool) → HasNoControl (write_json_field name value first)
unfolding write_json_field
write_json_field-HasNoControl name value first =
    HasNoControl-append (if first then [] else b',' ∷ []) _ (comma-HasNoControl first) (
      name-HasNoControl name _ (
        omega arith,
        HasNoControl-append (escape_json_string value) (0x22 ∷ []) (escape-HasNoControl value)
            (omega arith, tt),
      ))

write_json_int_field-HasNoControl :
    (name : Text) (value : ℕ) (first : Bool) → HasNoControl (write_json_int_field name value first)
unfolding write_json_int_field
write_json_int_field-HasNoControl name value first =
    HasNoControl-append (if first then [] else b',' ∷ []) _ (comma-HasNoControl first) (
      name-HasNoControl name (int64_to_string value)
        (AreDigits-HasNoControl (int64_to_string value) (int64_to_string-AreDigits value)))

eight-HasNoControl :
    (a b c d e f g h : Text)
    → HasNoControl a
    → HasNoControl b
    → HasNoControl c
    → HasNoControl d
    → HasNoControl e
    → HasNoControl f
    → HasNoControl g
    → HasNoControl h
    → HasNoControl (a ++ b ++ c ++ d ++ e ++ f ++ g ++ h ++ b'}' ∷ [])
eight-HasNoControl a b c d e f g h i j k l m n o p =
    let two = HasNoControl-append a b i j in
    let three = HasNoControl-append (a ++ b) c two k in
    let four = HasNoControl-append (a ++ b ++ c) d three l in
    let five = HasNoControl-append (a ++ b ++ c ++ d) e four m in
    let six = HasNoControl-append (a ++ b ++ c ++ d ++ e) f five n in
    let seven = HasNoControl-append (a ++ b ++ c ++ d ++ e ++ f) g six o in
    let all = HasNoControl-append (a ++ b ++ c ++ d ++ e ++ f ++ g) h seven p in
    HasNoControl-append (a ++ b ++ c ++ d ++ e ++ f ++ g ++ h) (b'}' ∷ []) all (omega arith, tt)

dumped_message-HasNoBreak : (m : Message) → HasNoBreak (dumped_message m)
unfolding dumped_message
dumped_message-HasNoBreak m =
    let a = write_json_int_field (codes "id") m.id true in
    let b = write_json_field (codes "conversation_type") m.conversation_type false in
    let c = write_json_field (codes "conversation_id") m.conversation_id false in
    let d = write_json_field (codes "sender") m.sender false in
    let e = write_json_field (codes "receiver") m.receiver false in
    let f = write_json_field (codes "room_id") m.room_id false in
    let g = write_json_field (codes "content") m.content false in
    let h = write_json_int_field (codes "created_at") m.created_at false in
    (
      refl,
      (
        refl,
        (
          refl,
          HasNoControl-HasNoBreak (a ++ b ++ c ++ d ++ e ++ f ++ g ++ h ++ b'}' ∷ []) (
              eight-HasNoControl a b c d e f g h
                (write_json_int_field-HasNoControl (codes "id") m.id true)
                (write_json_field-HasNoControl (codes "conversation_type") m.conversation_type
                  false)
                (write_json_field-HasNoControl (codes "conversation_id") m.conversation_id false)
                (write_json_field-HasNoControl (codes "sender") m.sender false)
                (write_json_field-HasNoControl (codes "receiver") m.receiver false)
                (write_json_field-HasNoControl (codes "room_id") m.room_id false)
                (write_json_field-HasNoControl (codes "content") m.content false)
                (write_json_int_field-HasNoControl (codes "created_at") m.created_at false)),
        ),
      ),
    )

-- A line before others.
lines_of-next :
    (line more : Text)
    → HasNoBreak line
    → (lines_of (line ++ 0x0a ∷ more) ≡ line ∷ lines_of more)
      × (rest_of (line ++ 0x0a ∷ more) ≡ rest_of more)
lines_of-next line more h =
    let cut = lines_of-line line h in
    let (e, f) = lines_of-append (line ++ 0x0a ∷ []) more in
    let together = append_assoc line (0x0a ∷ []) more in
    (
      ap lines_of (sym together)
          ∙ e
          ∙ ap (λ r. lines_of (line ++ 0x0a ∷ []) ++ lines_of (r ++ more)) cut.1
          ∙ ap (λ ls. ls ++ lines_of more) cut.0,
      ap rest_of (sym together) ∙ f ∙ ap (λ r. rest_of (r ++ more)) cut.1,
    )

-- A text whose lines list the rows.
record Lists (text : Text) (rs : List StoredRow) : Type 0 where
  lines : List Text
  cut : lines_of text ≡ lines
  listed : IsListing lines rs
  whole : rest_of text ≡ []

abbrev closing : Text
closing = 0x0a ∷ b']' ∷ 0x0a ∷ []

abbrev line_of : StoredRow → Text
line_of r = dumped_message (message_from_statement r)

HasNoBreak-comma : (line : Text) → HasNoBreak line → HasNoBreak (line ++ b',' ∷ [])
HasNoBreak-comma [] h = (refl, tt)
HasNoBreak-comma (c ∷ line) h = (h.0, HasNoBreak-comma line h.1)

rows_shape :
    (r s rest : Text)
    → r ++ ((b',' ∷ 0x0a ∷ []) ++ s ++ rest ++ closing)
      ≡ (r ++ b',' ∷ []) ++ 0x0a ∷ (s ++ (rest ++ closing))
rows_shape r s rest = simp append_assoc

rows-Lists :
    (r : StoredRow) (rs : List StoredRow)
    → Lists (line_of r ++ (dumped_rows rs false ++ closing)) (r ∷ rs)
unfolding dumped_rows lines_of rest_of codes
rows-Lists r [] =
    let (e, f) =
      lines_of-next (line_of r) (b']' ∷ 0x0a ∷ [])
        (dumped_message-HasNoBreak (message_from_statement r)) in
    record {
      lines = line_of r ∷ codes "]" ∷ [];
      cut = e;
      listed = (line_of r, refl, parse-dumped_message (message_from_statement r));
      whole = f;
    }
rows-Lists r (s ∷ rs) =
    let v = rows-Lists s rs in
    let more = line_of s ++ (dumped_rows rs false ++ closing) in
    let line = line_of r ++ b',' ∷ [] in
    let (e, f) =
      lines_of-next line more
        (HasNoBreak-comma (line_of r) (dumped_message-HasNoBreak (message_from_statement r))) in
    let shape : line_of r ++ (dumped_rows (s ∷ rs) false ++ closing) ≡ line ++ 0x0a ∷ more =
      rows_shape (line_of r) (line_of s) (dumped_rows rs false) in
    record {
      lines = line ∷ v.lines;
      cut = ap lines_of shape ∙ e ∙ ap (λ ls. line ∷ ls) v.cut;
      listed =
          (line_of r, v.lines, refl, parse-dumped_message (message_from_statement r), v.listed);
      whole = ap rest_of shape ∙ f ∙ v.whole;
    }

dump_text-IsDump : (rs : List StoredRow) → IsDump (dump_text rs) rs
unfolding dump_text dumped_rows lines_of rest_of codes
dump_text-IsDump [] = record {
  lines = [] ∷ codes "]" ∷ [];
  opened = refl;
  listed = refl;
  whole = refl;
}
dump_text-IsDump (r ∷ rs) =
    let v = rows-Lists r rs in
    let shape : dump_text (r ∷ rs)
        ≡ b'[' ∷ 0x0a ∷ (line_of r ++ (dumped_rows rs false ++ closing)) =
      ap (λ t. b'[' ∷ 0x0a ∷ t) (append_assoc (line_of r) (dumped_rows rs false) closing) in
    record {
      lines = v.lines;
      opened = ap lines_of shape ∙ ap (λ ls. codes "[" ∷ ls) v.cut;
      listed = v.listed;
      whole = ap rest_of shape ∙ v.whole;
    }

module _ {Db : Type 0} (sqlite : Sqlite Db) (output : OutputFile) where
  -- A dump reports success exactly if a database is open, its rows could be read to their end, the file
  -- could be opened, and the stream was good behind the whole text; the file then holds what the
  -- stream has brought into it of this text. And the text is an opening bracket, one line for each of
  -- the rows in their order, which is read back as all fields of its message, with a comma behind
  -- all but the last, and a closing bracket.
  pub dump_all_messages_json_iff :
      (db : Option Db) (file : Option Text)
      → (dump_all_messages_json sqlite output db ≡ (file, success)) ↔ (
          (rs : List StoredRow) × CanDump sqlite output db rs
          × (file ≡ some (output.holds (dump_text rs)))
          × IsDump (dump_text rs) rs)
  dump_all_messages_json_iff db file = (
    λ h.
        let (rs, can, e) = dump-CanDump sqlite output db file h in
        (rs, can, e, dump_text-IsDump rs),
    λ (rs, can, e, listed). CanDump-dump sqlite output db rs can ∙ ap (λ t. (t, success)) (sym e),
  )
