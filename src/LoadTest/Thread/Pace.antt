-- ===== src/LoadTest/Thread/Pace.antt =====
-- How fast a client of tools/StressClient.cc sends.
use chat_service.Base.{
  ℕ, zero, suc, ◌+◌, ◌*◌, ◌<◌, ◌≤◌, Text, true, false, List, [], ◌∷◌, ◌++◌, Every, leb, ltb, length,
  ◌≡◌, ◌⊎◌, refl, ap, ◌∙◌, arith, Bool-cases, Option-cases, inl, inr, Option, none, some, text_eq,
  codes,
}
use chat_service.Json.Parsed.{Parsed, ok, err, out_of_fuel}
use chat_service.Json.{JsonObject, parse_json_object}
use chat_service.LoadTest.{
  LoadMetrics, make_login_line, make_private_line, name_of, count_message, handle_event,
  handle_line, drain_loop, drain_socket, parse_sent_at,
}
use chat_service.LoadTest.Thread.{
  Client, Round, drained, send_private, client_rounds, finish_client, client_thread, logged_in,
  no_metrics,
}
use chat_service.Protocol.{field_or_empty}
use chat_service.Server.Lines.Split.{take_line, strip_return}
use chat_service.Server.Metrics.{wrap}

count_message-sent :
    (now : ℕ) (t : Option ℕ) (m : LoadMetrics)
    → (count_message now t m).messages_sent ≡ m.messages_sent
unfolding count_message
count_message-sent now none m = refl
count_message-sent now (some t) m = elim (Bool-cases (leb t now)) [
  | inl k ↦ rw k refl
  | inr k ↦ rw k refl
]

handle_event-sent :
    (now : ℕ) (p : Parsed JsonObject) (m : LoadMetrics)
    → (handle_event now p m).messages_sent ≡ m.messages_sent
unfolding handle_event
handle_event-sent now (err e) m = refl
handle_event-sent now out_of_fuel m = refl
handle_event-sent now (ok object rest) m =
    elim (Bool-cases (text_eq (field_or_empty object (codes "type")) (codes "private"))) [
      | inl k ↦
          rw k (count_message-sent now (parse_sent_at (field_or_empty object (codes "message"))) m)
      | inr k ↦ rw k refl
    ]

handle_line-sent :
    (now : ℕ) (line : Text) (m : LoadMetrics)
    → (handle_line now line m).messages_sent ≡ m.messages_sent
unfolding handle_line
handle_line-sent now line m = handle_event-sent now (parse_json_object line) m

drain_loop-sent :
    (fuel : ℕ) (clock : ℕ → ℕ) (tick : ℕ) (buffer : Text) (m : LoadMetrics)
    → (drain_loop fuel clock tick buffer m).1.messages_sent ≡ m.messages_sent
unfolding drain_loop
drain_loop-sent zero clock tick buffer m = refl
drain_loop-sent (suc fuel) clock tick buffer m = elim (Option-cases (take_line buffer)) [
  | inl k ↦ rw (k, drain_loop) refl
  | inr ((line, rest), k) ↦
      rw (k, drain_loop)
        (drain_loop-sent fuel clock (suc tick) rest (handle_line (clock tick) (strip_return line) m)
          ∙ handle_line-sent (clock tick) (strip_return line) m)
]

drain_socket-sent :
    (clock : ℕ → ℕ) (pieces : List Text) (buffer : Text) (m : LoadMetrics)
    → (drain_socket clock pieces buffer m).1.messages_sent ≡ m.messages_sent
unfolding drain_socket
drain_socket-sent clock [] buffer m = refl
drain_socket-sent clock (piece ∷ pieces) buffer m =
    let text = buffer ++ piece in
    drain_socket-sent clock pieces (drain_loop (suc (length text)) clock 0 text m).0
      (drain_loop (suc (length text)) clock 0 text m).1
    ∙ drain_loop-sent (suc (length text)) clock 0 text m

-- The login, and on it the messages with the numbers from 1 on, the last first.
abbrev pub IsNumbered : Text → ℕ → List Text → Type 0
IsNumbered username zero [] = ⊥
IsNumbered username (suc n) [] = ⊥
IsNumbered username zero (line ∷ lines) =
    ((t : ℕ) × (line ≡ make_login_line username t)) × (lines ≡ [])
IsNumbered username (suc n) (line ∷ lines) =
    ((t : ℕ) × (line ≡ make_private_line username (suc n) t)) × IsNumbered username n lines

-- After `n` messages: they are numbered and counted, and the last went out when it was due, which was
-- before `end`.
pub record IsPaced (username : Text) (start end : ℕ) (c : Client) (n : ℕ) : Type 0 where
  pub numbered : IsNumbered username n c.sent
  pub counted : c.metrics.messages_sent ≡ wrap n
  pub due : (n ≡ 0) ⊎ (start + n * 1_000_000 < end + 1_000_000)

-- The same, while the loop runs.
record IsRunning (username : Text) (start end : ℕ) (c : Client) : Type 0 where
  name : c.username ≡ username
  next : c.next_send ≡ start + c.sequence * 1_000_000
  paced : IsPaced username start end c c.sequence

wrap-suc : (n : ℕ) → wrap (wrap n + 1) ≡ wrap (suc n)
wrap-suc n = omega arith

module _ (end : ℕ) (r : Round) (rounds : List Round) (c : Client) where
  -- The four ways of a round.
  ended_round : ltb r.checked end ≡ false → client_rounds end (r ∷ rounds) c ≡ some c
  unfolding client_rounds
  ended_round h = rw h refl

  busy_round :
      ltb r.checked end ≡ true
      → leb c.next_send r.now ≡ true
      → r.sends ≡ true
      → client_rounds end (r ∷ rounds) c
        ≡ client_rounds end rounds (drained r.clock r.pieces (send_private r.system_time c))
  unfolding client_rounds
  busy_round h k l = rw (h, k, l) refl

  failed_round :
      ltb r.checked end ≡ true
      → leb c.next_send r.now ≡ true
      → r.sends ≡ false
      → client_rounds end (r ∷ rounds) c ≡ some (record c { sequence = suc c.sequence })
  unfolding client_rounds
  failed_round h k l = rw (h, k, l) refl

  idle_round :
      ltb r.checked end ≡ true
      → leb c.next_send r.now ≡ false
      → client_rounds end (r ∷ rounds) c ≡ client_rounds end rounds (drained r.clock r.pieces c)
  unfolding client_rounds
  idle_round h k = rw (h, k) refl

module _ (username : Text) (start end : ℕ) where
  drained-IsRunning :
      (clock : ℕ → ℕ) (pieces : List Text) (c : Client)
      → IsRunning username start end c
      → IsRunning username start end (drained clock pieces c)
  unfolding drained
  drained-IsRunning clock pieces c v = record {
    name = v.name;
    next = v.next;
    paced = record {
      numbered = v.paced.numbered;
      counted = drain_socket-sent clock pieces c.buffer c.metrics ∙ v.paced.counted;
      due = v.paced.due;
    };
  }

  send_private-IsRunning :
      (now t : ℕ) (c : Client)
      → IsRunning username start end c
      → c.next_send ≤ now
      → now < end
      → IsRunning username start end (send_private t c)
  unfolding send_private
  send_private-IsRunning now t c v h l = record {
    name = v.name;
    next = omega (arith, v.next);
    paced = record {
      numbered = ((t, ap (λ u. make_private_line u (suc c.sequence) t) v.name), v.paced.numbered);
      counted = ap (λ n. wrap (n + 1)) v.paced.counted ∙ wrap-suc c.sequence;
      due = inr (omega (arith, v.next, h, l));
    };
  }

-- The loop ends, and has kept its pace.
abbrev EndsPaced : Text → ℕ → ℕ → Option Client → Type 0
EndsPaced username start end ended =
    (d : Client) × (n : ℕ) × (ended ≡ some d) × IsPaced username start end d n

module _ (username : Text) (start end lag : ℕ) (stop : Round) (stopped : end ≤ stop.checked) where
  stop-EndsPaced :
      (c : Client)
      → IsRunning username start (end + lag) c
      → EndsPaced username start (end + lag) (client_rounds end (stop ∷ []) c)
  stop-EndsPaced c v = (c, c.sequence, ended_round end stop [] c (ground arith), v.paced)

  rounds-EndsPaced :
      (rounds : List Round) (c : Client)
      → Every (λ r. r.now ≤ r.checked + lag) rounds
      → IsRunning username start (end + lag) c
      → EndsPaced username start (end + lag) (client_rounds end (rounds ++ stop ∷ []) c)
  rounds-EndsPaced [] c near v = stop-EndsPaced c v
  rounds-EndsPaced (r ∷ rounds) c near v =
      let more = rounds ++ stop ∷ [] in
      elim (Bool-cases (ltb r.checked end)) [
        | inr h ↦ (c, c.sequence, ended_round end r more c h, v.paced)
        | inl h ↦ elim (Bool-cases (leb c.next_send r.now)) [
          | inr k ↦ rw (idle_round end r more c h k) (
              rounds-EndsPaced rounds (drained r.clock r.pieces c) near.1
                (drained-IsRunning username start (end + lag) r.clock r.pieces c v))
          | inl k ↦ elim (Bool-cases r.sends) [
            | inr l ↦ (
              record c { sequence = suc c.sequence },
              c.sequence,
              failed_round end r more c h k l,
              record { numbered = v.paced.numbered; counted = v.paced.counted; due = v.paced.due },
            )
            | inl l ↦
                let due : c.next_send ≤ r.now = ground arith in
                let before : r.now < end + lag = ground (arith, near.0) in
                let d = send_private r.system_time c in
                rw (busy_round end r more c h k l) (
                  rounds-EndsPaced rounds (drained r.clock r.pieces d) near.1 (
                    drained-IsRunning username start (end + lag) r.clock r.pieces d (
                      send_private-IsRunning username start (end + lag) r.now r.system_time c v due
                        before)))
          ]
        ]
      ]

logged_in-IsRunning :
    (client t start end : ℕ) (m : LoadMetrics)
    → m.messages_sent ≡ 0
    → IsRunning (name_of client) start end (logged_in client t start m)
logged_in-IsRunning client t start end m none_sent = record {
  name = refl;
  next = omega arith;
  paced = record { numbered = ((t, refl), refl); counted = none_sent; due = inl refl };
}

finish-ended :
    (clock : ℕ → ℕ) (pieces : List Text) (ended : Option Client) (d : Client)
    → ended ≡ some d
    → finish_client clock pieces ended
      ≡ some (d.sent, (drain_socket clock pieces d.buffer d.metrics).1)
unfolding finish_client drained
finish-ended clock pieces ended d h = rw h refl

-- Whatever a client receives, and whether its messages can be sent or not: if it is connected, its
-- login goes out, the clock moves by at most `lag` between its two readings in a round, and some
-- reading of the loop is not before the end, then the thread ends; it has sent its login and
-- then some number of messages, numbered from 1 on without a gap; this is the number of messages that
-- it counts, in 64 bits; and unless there is none, a second for each but the first fits between its
-- start and `lag` after the end.
pub client_thread-IsPaced :
    (client t start end lag : ℕ) (rounds : List Round) (stop : Round) (clock : ℕ → ℕ)
    (pieces : List Text)
    → Every (λ r. r.now ≤ r.checked + lag) rounds
    → end ≤ stop.checked
    → (sent : List Text) × (metrics : LoadMetrics) × (n : ℕ) × (client_thread client true true t
          start end
          (rounds ++ stop ∷ [])
          clock
          pieces
          no_metrics
        ≡ some (sent, metrics))
      × IsNumbered (name_of client) n sent
      × (metrics.messages_sent ≡ wrap n)
      × ((n ≡ 0) ⊎ (start + n * 1_000_000 < end + lag + 1_000_000))
unfolding client_thread
client_thread-IsPaced client t start end lag rounds stop clock pieces near stopped =
    let m = record no_metrics { connection_attempts = 1; connection_successes = 1 } in
    let c = logged_in client t start m in
    let (d, n, e, v) =
      rounds-EndsPaced (name_of client) start end lag stop stopped rounds c near
        (logged_in-IsRunning client t start (end + lag) m refl) in
    (
      d.sent,
      (drain_socket clock pieces d.buffer d.metrics).1,
      n,
      finish-ended clock pieces (client_rounds end (rounds ++ stop ∷ []) c) d e,
      v.numbered,
      drain_socket-sent clock pieces d.buffer d.metrics ∙ v.counted,
      v.due,
    )
