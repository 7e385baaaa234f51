-- ===== src/TerminalClient/Session/Requests.antt =====
-- Lines that the server reads as requests, and the handling of them one after another.
use chat_service.Base.{ℕ, Text, List, [], ◌∷◌, ◌++◌, map, IsSorted, Every, ◌≡◌, refl, ap, ◌∙◌}
use chat_service.Json.{JsonObject, ok, parse_json_object, serialize_json_object, make_json_line}
use chat_service.Json.Framing.{serialize-HasNoControl}
use chat_service.Json.RoundTrip.{parse-serialize}
use chat_service.Server.Lines.Chunks.{handle_lines}
use chat_service.Server.Lines.Clients.{
  HasNoControl-HasNoBreak, HasNoControl-strip_return, handle_text-ok,
}
use chat_service.Server.Lines.Loop.{Reading, Node, handle_object, handle_text, handle_line}
use chat_service.Server.Lines.Split.{
  HasNoBreak, lines_of, rest_of, lines_of-line, lines_of-append, strip_return,
}
use chat_service.Server.State.{Storage}
use chat_service.UserManager.{Connection}

-- One line with its end, which the server reads as an object.
pub record IsRequestLine (text : Text) (m : JsonObject) : Type 0 where
  pub body : Text
  pub rest : Text
  pub ended : text ≡ body ++ 0x0a ∷ []
  pub one : HasNoBreak body
  pub stripped : strip_return body ≡ body
  pub read : parse_json_object body ≡ ok m rest

make_json_line-IsRequestLine : (m : JsonObject) → IsSorted m → IsRequestLine (make_json_line m) m
unfolding make_json_line
make_json_line-IsRequestLine m s =
    let clean = serialize-HasNoControl m in
    record {
      body = serialize_json_object m;
      rest = [];
      ended = refl;
      one = HasNoControl-HasNoBreak (serialize_json_object m) clean;
      stripped = HasNoControl-strip_return (serialize_json_object m) clean;
      read = parse-serialize m s;
    }

-- As many texts as objects, one for one.
abbrev pub AreRequestLines : List Text → List JsonObject → Type 0
AreRequestLines [] [] = Unit {0}
AreRequestLines [] (m ∷ ms) = ⊥
AreRequestLines (text ∷ texts) [] = ⊥
AreRequestLines (text ∷ texts) (m ∷ ms) = IsRequestLine text m × AreRequestLines texts ms

-- What the connection carries.
abbrev pub joined : List Text → Text
joined [] = []
joined (text ∷ texts) = text ++ joined texts

pub AreRequestLines-sorted :
    (ms : List JsonObject)
    → Every (λ m. IsSorted {V = Text} m) ms
    → AreRequestLines (map make_json_line ms) ms
AreRequestLines-sorted [] s = tt
AreRequestLines-sorted (m ∷ ms) s =
    (make_json_line-IsRequestLine m s.0, AreRequestLines-sorted ms s.1)

lines_of-request :
    (text more : Text) (m : JsonObject) (v : IsRequestLine text m)
    → (lines_of (text ++ more) ≡ v.body ∷ lines_of more) × (rest_of (text ++ more) ≡ rest_of more)
lines_of-request text more m v =
    let cut = lines_of-line v.body v.one in
    let (e, f) = lines_of-append (v.body ++ 0x0a ∷ []) more in
    (
      ap (λ t. lines_of (t ++ more)) v.ended
          ∙ e
          ∙ ap (λ r. lines_of (v.body ++ 0x0a ∷ []) ++ lines_of (r ++ more)) cut.1
          ∙ ap (λ ls. ls ++ lines_of more) cut.0,
      ap (λ t. rest_of (t ++ more)) v.ended ∙ f ∙ ap (λ r. rest_of (r ++ more)) cut.1,
    )

module _ {St : Type 0} (db : Storage St) (clock : ℕ → Reading) (t : ℕ) (c : Connection) where
  -- The objects, one after another.
  abbrev pub handle_objects : List JsonObject → Node St → Node St
  handle_objects [] n = n
  handle_objects (m ∷ ms) n = handle_objects ms (handle_object db clock t c m n)

  request-handled :
      (text : Text) (m : JsonObject) (v : IsRequestLine text m) (n : Node St)
      → handle_line db clock t c v.body n ≡ handle_object db clock t c m n
  unfolding handle_line
  request-handled text m v n =
      ap (λ b. handle_text db clock t c b n) v.stripped
      ∙ handle_text-ok db clock t c v.body v.rest m n v.read

  pub requests-handled :
      (texts : List Text) (ms : List JsonObject) (n : Node St)
      → AreRequestLines texts ms
      → (handle_lines db clock c t (lines_of (joined texts)) n ≡ handle_objects ms n)
        × (rest_of (joined texts) ≡ [])
  unfolding handle_lines
  requests-handled [] [] n a = unfold handle_lines lines_of rest_of in (refl, refl)
  requests-handled [] (m ∷ ms) n a = absurd a
  requests-handled (text ∷ texts) [] n a = absurd a
  requests-handled (text ∷ texts) (m ∷ ms) n a =
      let (e, f) = lines_of-request text (joined texts) m a.0 in
      let (g, h) = requests-handled texts ms (handle_object db clock t c m n) a.1 in
      (
        ap (λ ls. handle_lines db clock c t ls n) e
            ∙ ap (handle_lines db clock c t (lines_of (joined texts)))
                (request-handled text m a.0 n)
            ∙ g,
        f ∙ h,
      )
