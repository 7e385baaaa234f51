-- ===== src/LoadTest.antt =====
-- tools/StressClient.cc: a client of the load test, which sends messages to itself and measures how
-- long they take. The times are microseconds; a counter is a `long long` of 64 bits, which wraps.
pub mod Latency
pub mod Thread
use chat_service.Base.{
  ℕ, zero, suc, ◌+◌, ◌-◌, ◌*◌, Text, Bool, true, false, not, ◌&&◌, ◌||◌, List, [], ◌∷◌, ◌++◌,
  Option, none, some, is_empty, codes, insert, text_eq, ltb, leb, ◌==◌, length, if◌then◌else◌,
}
use chat_service.Json.{
  JsonObject, ok, err, out_of_fuel, parse_json_object, make_json_line, skip_whitespace, is_digit,
  skip_digits,
}
use chat_service.Json.Parsed.{Parsed}
use chat_service.Protocol.{field_or_empty}
use chat_service.Server.Lines.Split.{take_line, strip_return}
use chat_service.Server.Metrics.{wrap}
use chat_service.Storage.{c_string}
use chat_service.Server.Numbers.{int64_to_string, read_digits, saturate}

-- What `strtol(s, &end, 10)` makes of a text: the sign, the value without it, and what stands at
-- `end`; `none` for `end == s`.
pub record Number : Type 0 where
  pub negative : Bool
  pub size : ℕ
  pub behind : Text

unfoldable pub strtol_digits : Bool → Text → Option Number
strtol_digits negative [] = none
strtol_digits negative (c ∷ s) =
    if is_digit c
    then some (record {
      negative = negative;
      size = saturate (read_digits (c ∷ s) 0);
      behind = skip_digits (c ∷ s);
    })
    else none

unfoldable pub strtol_signed : Text → Option Number
unfolding strtol_digits
strtol_signed [] = none
strtol_signed (c ∷ s) =
    if c == b'-'
    then strtol_digits true s
    else if c == b'+'
    then strtol_digits false s
    else strtol_digits false (c ∷ s)

unfoldable pub strtol : Text → Option Number
unfolding strtol_signed
strtol text = strtol_signed (skip_whitespace text)

-- `parseInt`
unfoldable pub parse_int : Text → Option ℕ
unfolding strtol is_empty
parse_int text = elim (strtol text) [
  | none ↦ none
  | some n ↦
      if not (is_empty n.behind) || (n.negative && ltb 0 n.size) || ltb 2_147_483_647 n.size
      then none
      else some n.size
]

pub record LoadOptions : Type 0 where
  pub host : Text
  pub port : ℕ
  pub clients : ℕ
  pub duration_seconds : ℕ
  pub csv_path : Text

abbrev pub default_options : LoadOptions
default_options = record {
  host = codes "127.0.0.1";
  port = 8888;
  clients = 1000;
  duration_seconds = 60;
  csv_path = codes "stress_results.csv";
}

-- A number from 1 to a bound.
abbrev pub at_most : ℕ → Option ℕ → Option ℕ
at_most bound none = none
at_most bound (some n) = if n == 0 || ltb bound n then none else some n

-- One argument and its value; `none` if it is refused.
unfoldable pub with_argument : Text → Text → LoadOptions → Option LoadOptions
unfolding parse_int
with_argument arg value options =
    if text_eq arg (codes "--clients")
    then elim (at_most 2_147_483_647 (parse_int value)) [
      | none ↦ none
      | some n ↦ some (record options { clients = n })
    ]
    else if text_eq arg (codes "--duration")
    then elim (at_most 2_147_483_647 (parse_int value)) [
      | none ↦ none
      | some n ↦ some (record options { duration_seconds = n })
    ]
    else if text_eq arg (codes "--host")
    then some (record options { host = value })
    else if text_eq arg (codes "--port")
    then elim (at_most 65_535 (parse_int value)) [
      | none ↦ none
      | some n ↦ some (record options { port = n })
    ]
    else if text_eq arg (codes "--csv")
    then some (record options { csv_path = value })
    else none

-- `parseOptions`: the loop over the arguments behind the name of the program.
unfoldable pub parse_options : List Text → LoadOptions → Option LoadOptions
unfolding with_argument
parse_options [] options = some options
parse_options (arg ∷ []) options = none
parse_options (arg ∷ value ∷ args) options =
    if text_eq arg (codes "--help") then none else elim (with_argument arg value options) [
      | none ↦ none
      | some options' ↦ parse_options args options'
    ]

-- The name of a client.
abbrev pub name_of : ℕ → Text
name_of client = codes "stress_" ++ int64_to_string client

unfoldable pub make_login_line : Text → ℕ → Text
make_login_line username now = make_json_line (
    insert (codes "sent_at_us") (int64_to_string now)
      (insert (codes "username") username (insert (codes "type") (codes "login") [])))

unfoldable pub payload : Text → ℕ → ℕ → Text
payload username sequence sent_at =
    codes "client="
    ++ (username
        ++ (codes ";seq="
            ++ (int64_to_string sequence ++ (codes ";sent_at_us=" ++ int64_to_string sent_at))))

abbrev pub private_object : Text → ℕ → ℕ → JsonObject
private_object username sequence sent_at = insert (codes "sent_at_us") (int64_to_string sent_at) (
    insert (codes "message") (payload username sequence sent_at)
      (insert (codes "target") username (insert (codes "type") (codes "private") [])))

unfoldable pub make_private_line : Text → ℕ → ℕ → Text
unfolding payload
make_private_line username sequence sent_at =
    make_json_line (private_object username sequence sent_at)

-- What stands behind a text, if the other text starts with it.
unfoldable pub behind_prefix : Text → Text → Option Text
behind_prefix [] s = some s
behind_prefix (k ∷ key) [] = none
behind_prefix (k ∷ key) (c ∷ s) = let rest = behind_prefix key s in if k == c then rest else none

-- `message.find(key)`: what stands behind the first place of the key.
unfoldable pub behind_key : Text → Text → Option Text
unfolding behind_prefix
behind_key key [] = behind_prefix key []
behind_key key (c ∷ s) =
    let later = behind_key key s in
    elim (behind_prefix key (c ∷ s)) [ none ↦ later | some rest ↦ some rest ]

unfoldable pub before_semicolon : Text → Text
before_semicolon [] = []
before_semicolon (c ∷ s) = if c == b';' then [] else c ∷ before_semicolon s

-- The value, a C string for `strtoll`, as a time, if it is a positive number and nothing else stands
-- before its first byte 0.
unfoldable pub sent_time : Option Number → Option ℕ
unfolding is_empty
sent_time none = none
sent_time (some n) =
    if not (is_empty n.behind) || n.negative || n.size == 0 then none else some n.size

unfoldable pub parse_sent_at : Text → Option ℕ
unfolding behind_key before_semicolon strtol sent_time c_string
parse_sent_at message = elim (behind_key (codes "sent_at_us=") message) [
  | none ↦ none
  | some value ↦ sent_time (strtol (c_string (before_semicolon value)))
]

pub record LoadMetrics : Type 0 where
  pub connection_attempts : ℕ
  pub connection_successes : ℕ
  pub connection_failures : ℕ
  pub messages_sent : ℕ
  pub messages_received : ℕ
  pub latency_micros : ℕ
  pub latency_samples : ℕ

-- `handleLine` on the time that was found.
unfoldable pub count_message : ℕ → Option ℕ → LoadMetrics → LoadMetrics
count_message now none m = m
count_message now (some sent_at) m =
    if leb sent_at now
    then record m {
      latency_micros = wrap (m.latency_micros + (now - sent_at));
      latency_samples = wrap (m.latency_samples + 1);
      messages_received = wrap (m.messages_received + 1);
    }
    else record m { messages_received = wrap (m.messages_received + 1) }

unfoldable pub handle_event : ℕ → Parsed JsonObject → LoadMetrics → LoadMetrics
unfolding count_message parse_sent_at field_or_empty
handle_event now (err e) m = m
handle_event now out_of_fuel m = m
handle_event now (ok object rest) m =
    if text_eq (field_or_empty object (codes "type")) (codes "private")
    then count_message now (parse_sent_at (field_or_empty object (codes "message"))) m
    else m

unfoldable pub handle_line : ℕ → Text → LoadMetrics → LoadMetrics
unfolding handle_event
handle_line now line m = handle_event now (parse_json_object line) m

-- The loop of `drainSocket` over the lines of the buffer; `clock` says the time for each line.
unfoldable pub drain_loop : ℕ → (ℕ → ℕ) → ℕ → Text → LoadMetrics → Text × LoadMetrics
unfolding handle_line take_line strip_return
drain_loop zero clock tick buffer m = (buffer, m)
drain_loop (suc fuel) clock tick buffer m = elim (take_line buffer) [
  | none ↦ (buffer, m)
  | some (line, rest) ↦
      drain_loop fuel clock (suc tick) rest (handle_line (clock tick) (strip_return line) m)
]

-- `drainSocket` on the pieces that are there to be received.
unfoldable pub drain_socket : (ℕ → ℕ) → List Text → Text → LoadMetrics → Text × LoadMetrics
unfolding drain_loop
drain_socket clock [] buffer m = (buffer, m)
drain_socket clock (piece ∷ pieces) buffer m =
    let (rest, counted) = drain_loop (suc (length (buffer ++ piece))) clock 0 (buffer ++ piece) m in
    drain_socket clock pieces rest counted
