-- ===== src/LoadTest/Latency.antt =====
-- What a client of tools/StressClient.cc measures of its own messages.
use chat_service.Base.{
  ℕ, ◌+◌, ◌-◌, ◌<◌, ◌≤◌, Text, true, false, ◌&&◌, ◌||◌, [], ◌∷◌, ◌++◌, some, codes, is_empty,
  insert, find, text_eq, text_lt, insert-IsSorted, IsSorted, leb, ◌==◌, ◌≡◌, refl, ap, ◌∙◌, arith,
}
use chat_service.Json.{ok, skip_digits, skip_whitespace, serialize_json_object}
use chat_service.Json.RoundTrip.{parse-serialize}
use chat_service.LoadTest.{
  LoadMetrics, name_of, payload, behind_prefix, behind_key, before_semicolon, strtol_digits,
  strtol_signed, strtol, sent_time, parse_sent_at, count_message, handle_event, handle_line,
}
use chat_service.Protocol.{field_or_empty}
use chat_service.Server.Chat.{private_event}
use chat_service.Server.Metrics.{wrap}
use chat_service.Storage.{c_string}
use chat_service.Server.Numbers.{int64_to_string, read_digits, saturate}
use chat_service.Server.Numbers.Digits.{
  AreDigits, int64_to_string-AreDigits, int64_to_string-is_empty, read_digits-int64_to_string,
}

abbrev key : Text
key = codes "sent_at_us="

behind_key-other :
    (d : ℕ) (s : Text) → (b's' == d) ≡ false → behind_key key (d ∷ s) ≡ behind_key key s
unfolding behind_key behind_prefix codes
behind_key-other d s h = rw (h, behind_key) refl

-- A digit is not the start of the key.
behind_key-digits : (s rest : Text) → AreDigits s → behind_key key (s ++ rest) ≡ behind_key key rest
behind_key-digits [] rest a = refl
behind_key-digits (d ∷ s) rest a =
    let e : (b's' == d) ≡ false = ground (arith, a.0) in
    behind_key-other d (s ++ rest) e ∙ behind_key-digits s rest a.1

behind_key-payload :
    (client sequence sent_at : ℕ)
    → behind_key key (payload (name_of client) sequence sent_at) ≡ some (int64_to_string sent_at)
unfolding payload behind_key behind_prefix codes
behind_key-payload client sequence sent_at =
    behind_key-digits (int64_to_string client) _ (int64_to_string-AreDigits client)
    ∙ behind_key-digits (int64_to_string sequence) _ (int64_to_string-AreDigits sequence)

before_semicolon-digits : (s : Text) → AreDigits s → before_semicolon s ≡ s
unfolding before_semicolon
before_semicolon-digits [] a = refl
before_semicolon-digits (d ∷ s) a = ground (arith, a.0, before_semicolon-digits s a.1)

c_string-digits : (s : Text) → AreDigits s → c_string s ≡ s
unfolding c_string
c_string-digits [] a = refl
c_string-digits (d ∷ s) a =
    let nonzero : (d == 0) ≡ false = ground (arith, a.0) in
    rw (nonzero, c_string) (ap (λ t. d ∷ t) (c_string-digits s a.1))

skip_digits-all : (s : Text) → AreDigits s → skip_digits s ≡ []
unfolding skip_digits
skip_digits-all [] a = refl
skip_digits-all (d ∷ s) a = ground (arith, a.0, skip_digits-all s a.1)

strtol-digits :
    (s : Text)
    → AreDigits s
    → is_empty s ≡ false
    → strtol s
      ≡ some
          (record { negative = false; size = saturate (read_digits s 0); behind = skip_digits s })
unfolding strtol strtol_signed strtol_digits skip_whitespace is_empty
strtol-digits [] a full = absurd (ground arith)
strtol-digits (d ∷ s) a full =
    let space : (d == 0x20 || leb 0x09 d && leb d 0x0d) ≡ false = ground (arith, a.0) in
    let minus : (d == b'-') ≡ false = ground (arith, a.0) in
    let plus : (d == b'+') ≡ false = ground (arith, a.0) in
    rw (space, strtol_signed) (rw (minus, plus, strtol_digits) (rw a.0 refl))

sent_time-positive :
    (n : ℕ)
    → 0 < n
    → n ≤ 9_223_372_036_854_775_807
    → sent_time (some (record { negative = false; size = saturate n; behind = [] })) ≡ some n
unfolding sent_time is_empty
sent_time-positive n positive fits = ground arith

parse_sent_at-value :
    (message value : Text)
    → behind_key key message ≡ some value
    → parse_sent_at message ≡ sent_time (strtol (c_string (before_semicolon value)))
unfolding parse_sent_at
parse_sent_at-value message value h = rw (h, parse_sent_at) refl

parse_sent_at-payload :
    (client sequence sent_at : ℕ)
    → 0 < sent_at
    → sent_at ≤ 9_223_372_036_854_775_807
    → parse_sent_at (payload (name_of client) sequence sent_at) ≡ some sent_at
parse_sent_at-payload client sequence sent_at positive fits =
    let a = int64_to_string-AreDigits sent_at in
    parse_sent_at-value (payload (name_of client) sequence sent_at) (int64_to_string sent_at)
      (behind_key-payload client sequence sent_at)
    ∙ ap (λ t. sent_time (strtol (c_string t)))
        (before_semicolon-digits (int64_to_string sent_at) a)
    ∙ ap (λ t. sent_time (strtol t)) (c_string-digits (int64_to_string sent_at) a)
    ∙ ap sent_time (
        strtol-digits (int64_to_string sent_at) a (int64_to_string-is_empty sent_at)
        ∙ rw (read_digits-int64_to_string sent_at, skip_digits-all (int64_to_string sent_at) a)
            refl)
    ∙ sent_time-positive sent_at positive fits

event-IsSorted :
    (from message : Text) (id at : ℕ) → IsSorted {V = Text} (private_event from message id at)
unfolding private_event
event-IsSorted from message id at = insert-IsSorted (codes "created_at") (int64_to_string at) _ (
    insert-IsSorted (codes "id") (int64_to_string id) _ (
      insert-IsSorted (codes "message") message _ (
        insert-IsSorted (codes "from") from _
          (insert-IsSorted (codes "type") (codes "private") [] tt))))

event-fields :
    (from message : Text) (id at : ℕ)
    → (text_eq (field_or_empty (private_event from message id at) (codes "type")) (codes "private")
        ≡ true)
      × (field_or_empty (private_event from message id at) (codes "message") ≡ message)
unfolding private_event field_or_empty find insert text_eq text_lt codes
event-fields from message id at = (refl, refl)

event-counted :
    (now : ℕ) (from message : Text) (id at : ℕ) (m : LoadMetrics)
    → handle_event now (ok (private_event from message id at) []) m
      ≡ count_message now (parse_sent_at message) m
unfolding handle_event
event-counted now from message id at m =
    let f = event-fields from message id at in rw (f.0, f.1) refl

-- When a client gets one of its own messages back from the server, whatever id and time the server has
-- given it, and no earlier than it was sent at a positive time of 63 bits, then it counts one
-- message and one sample, and the time since then, its own, is what it adds to the latency.
pub handle_line-own_message :
    (client sequence sent_at now id at : ℕ) (from : Text) (m : LoadMetrics)
    → 0 < sent_at
    → sent_at ≤ 9_223_372_036_854_775_807
    → sent_at ≤ now
    → handle_line now
        (serialize_json_object
          (private_event from (payload (name_of client) sequence sent_at) id at))
        m
      ≡ record m {
        latency_micros = wrap (m.latency_micros + (now - sent_at));
        latency_samples = wrap (m.latency_samples + 1);
        messages_received = wrap (m.messages_received + 1);
      }
unfolding handle_line
handle_line-own_message client sequence sent_at now id at from m positive fits later =
    let message = payload (name_of client) sequence sent_at in
    let in_time : leb sent_at now ≡ true = ground arith in
    ap (λ p. handle_event now p m)
      (parse-serialize (private_event from message id at) (event-IsSorted from message id at))
    ∙ event-counted now from message id at m
    ∙ ap (λ t. count_message now t m) (parse_sent_at-payload client sequence sent_at positive fits)
    ∙ unfold count_message in rw in_time refl
