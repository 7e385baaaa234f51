-- ===== src/Server/Lines/Chunks.antt =====
-- The loop of `onMessage` does what the lines of the buffer say, and it does not matter in which
-- pieces the bytes arrive.
use chat_service.Base.{
  ℕ, zero, suc, ◌<◌, ◌≤◌, Text, true, List, [], ◌∷◌, ◌++◌, none, is_some, length, ltb, codes, ◌≡◌,
  refl, ap, arith, inl, inr, Option-cases, Bool-cases, ◌⊎◌, ==_iff,
}
use chat_service.Json.Parsed.{Parsed}
use chat_service.Json.{JsonObject, ok, err, out_of_fuel, parse_json_object}
use chat_service.Server.Lines.Loop.{
  Reading, Node, handle_object, handle_parsed, handle_text, handle_line, read_loop, check_rest,
  on_message, refuse_long, max_request_line_bytes,
}
use chat_service.Server.Lines.Present.{handle_request-Keeps}
use chat_service.Server.Lines.Split.{
  take_line, strip_return, lines_of, rest_of, take_line-none, take_line-some, lines_of-append,
  take_line-rest_of,
}
use chat_service.Server.Requests.{handle_request}
use chat_service.Server.State.{Storage, send_error}
use chat_service.UserManager.{Connection}

-- Two nodes that differ in their counters at most.
pub record IsSame {St : Type 0} (n m : Node St) : Type 0 where
  pub server : n.server ≡ m.server
  pub ticks : n.ticks ≡ m.ticks
  pub closing : n.closing ≡ m.closing

module _ {St : Type 0} (db : Storage St) (clock : ℕ → Reading) (c : Connection) where
  -- The reference: the lines, one after another.
  unfoldable pub handle_lines : ℕ → List Text → Node St → Node St
  handle_lines receive_time [] n = n
  handle_lines receive_time (line ∷ lines) n =
      handle_lines receive_time lines (handle_line db clock receive_time c line n)

  handle_lines-append :
      (t : ℕ) (ls ms : List Text) (n : Node St)
      → handle_lines t (ls ++ ms) n ≡ handle_lines t ms (handle_lines t ls n)
  unfolding handle_lines
  handle_lines-append t [] ms n = refl
  handle_lines-append t (l ∷ ls) ms n = handle_lines-append t ls ms (handle_line db clock t c l n)

  -- With a round more than the buffer has bytes, the loop ends by finding no line break: it has
  -- handled all lines of the buffer, in their order, and has left what stands behind the last one.
  pub read_loop-lines :
      (t fuel : ℕ) (buffer : Text) (n : Node St)
      → length buffer < fuel
      → read_loop db clock t c fuel buffer n ≡ (rest_of buffer, handle_lines t (lines_of buffer) n)
  unfolding read_loop handle_lines
  read_loop-lines t zero buffer n h = absurd (omega arith)
  read_loop-lines t (suc fuel) buffer n h = elim (Option-cases (take_line buffer)) [
    | inl k ↦ let e = take_line-none buffer k in rw (k, read_loop, e.0, e.1) refl
    | inr ((line, rest), k) ↦
        let e = take_line-some buffer line rest k in
        rw (k, read_loop, e.0, e.1)
          (read_loop-lines t fuel rest (handle_line db clock t c line n) (omega (arith, h, e.2)))
  ]

  -- The session is still there behind a line.
  handle_parsed-session :
      (t : ℕ) (p : Parsed JsonObject) (n : Node St)
      → is_some (n.server.sessions c) ≡ true
      → is_some ((handle_parsed db clock t c p n).server.sessions c) ≡ true
  unfolding handle_parsed handle_object
  handle_parsed-session t (ok request rest) n h =
      (handle_request-Keeps db (clock n.ticks).seconds c request n.server).present c h
  handle_parsed-session t (err e) n h = h
  handle_parsed-session t out_of_fuel n h = h

  handle_text-session :
      (t : ℕ) (line : Text) (n : Node St)
      → is_some (n.server.sessions c) ≡ true
      → is_some ((handle_text db clock t c line n).server.sessions c) ≡ true
  unfolding handle_text
  handle_text-session t [] n h = h
  handle_text-session t (b ∷ line) n h = handle_parsed-session t (parse_json_object (b ∷ line)) n h

  handle_lines-session :
      (t : ℕ) (lines : List Text) (n : Node St)
      → is_some (n.server.sessions c) ≡ true
      → is_some ((handle_lines t lines n).server.sessions c) ≡ true
  unfolding handle_lines handle_line
  handle_lines-session t [] n h = h
  handle_lines-session t (line ∷ lines) n h =
      handle_lines-session t lines _ (handle_text-session t (strip_return line) n h)

  pub on_message-lines :
      (t : ℕ) (buffer : Text) (n : Node St)
      → is_some (n.server.sessions c) ≡ true
      → on_message db clock t c buffer n
        ≡ check_rest db clock t c (rest_of buffer, handle_lines t (lines_of buffer) n)
  unfolding on_message
  on_message-lines t buffer n h = elim (Option-cases (n.server.sessions c)) [
    | inl k ↦ absurd (ground arith)
    | inr (name, k) ↦
        rw (k, on_message)
          (ap (check_rest db clock t c)
            (read_loop-lines t (suc (length buffer)) buffer n (omega arith)))
  ]

  pub check_rest-short :
      (t : ℕ) (rest : Text) (n : Node St)
      → length rest ≤ max_request_line_bytes
      → check_rest db clock t c (rest, n) ≡ (rest, n)
  unfolding check_rest
  check_rest-short t rest n h = ground arith

  -- Whatever arrives on a connection with a session, what is left in the buffer has no line break in
  -- it, and it is at most 65536 bytes long, or else the connection is to be closed.
  pub on_message-bounded :
      (t : ℕ) (buffer : Text) (n : Node St)
      → is_some (n.server.sessions c) ≡ true
      → let after = on_message db clock t c buffer n in
        (take_line after.0 ≡ none) × ((length after.0 ≤ 65_536) ⊎ (after.1.closing c ≡ true))
  on_message-bounded t buffer n here =
      rw (on_message-lines t buffer n here)
        (elim (Bool-cases (ltb max_request_line_bytes (length (rest_of buffer)))) [
          | inl k ↦
              unfold check_rest refuse_long in
              rw k (take_line-rest_of buffer, inr (ground (arith, ==_iff c c)))
          | inr k ↦ unfold check_rest in rw k (take_line-rest_of buffer, inl (ground arith))
        ])

-- Two clocks, for which the same requests are handled in the same seconds; the microseconds, by which
-- latencies are measured, may differ.
module _ {St : Type 0} (db : Storage St) (clock later : ℕ → Reading) (c : Connection)
    (same : (k : ℕ) → (clock k).seconds ≡ (later k).seconds) where
  handle_object-IsSame :
      (t u : ℕ) (request : JsonObject) (n m : Node St)
      → IsSame n m
      → IsSame (handle_object db clock t c request n) (handle_object db later u c request m)
  unfolding handle_object
  handle_object-IsSame t u request n m v = record {
    server =
        rw (v.server, v.ticks)
          (ap (λ now. handle_request db now c request m.server) (same m.ticks));
    ticks = ap suc v.ticks;
    closing = v.closing;
  }

  handle_parsed-IsSame :
      (t u : ℕ) (p : Parsed JsonObject) (n m : Node St)
      → IsSame n m
      → IsSame (handle_parsed db clock t c p n) (handle_parsed db later u c p m)
  unfolding handle_parsed
  handle_parsed-IsSame t u (ok request rest) n m v = handle_object-IsSame t u request n m v
  handle_parsed-IsSame t u (err e) n m v = record {
    server = ap (send_error c (codes "invalid json: " ++ e)) v.server;
    ticks = v.ticks;
    closing = v.closing;
  }
  handle_parsed-IsSame t u out_of_fuel n m v = v

  handle_text-IsSame :
      (t u : ℕ) (line : Text) (n m : Node St)
      → IsSame n m
      → IsSame (handle_text db clock t c line n) (handle_text db later u c line m)
  unfolding handle_text
  handle_text-IsSame t u [] n m v = v
  handle_text-IsSame t u (b ∷ line) n m v =
      handle_parsed-IsSame t u (parse_json_object (b ∷ line)) n m v

  handle_lines-IsSame :
      (t u : ℕ) (lines : List Text) (n m : Node St)
      → IsSame n m
      → IsSame (handle_lines db clock c t lines n) (handle_lines db later c u lines m)
  unfolding handle_lines handle_line
  handle_lines-IsSame t u [] n m v = v
  handle_lines-IsSame t u (line ∷ lines) n m v =
      handle_lines-IsSame t u lines _ _ (handle_text-IsSame t u (strip_return line) n m v)

  check_rest-IsSame :
      (t u : ℕ) (rest : Text) (n m : Node St)
      → IsSame n m
      → ((check_rest db clock t c (rest, n)).0 ≡ (check_rest db later u c (rest, m)).0)
        × IsSame (check_rest db clock t c (rest, n)).1 (check_rest db later u c (rest, m)).1
  unfolding check_rest refuse_long
  check_rest-IsSame t u rest n m v = elim (Bool-cases (ltb max_request_line_bytes (length rest))) [
    | inl k ↦ rw k (
      refl,
      record {
        server = ap (send_error c (codes "request line is too large")) v.server;
        ticks = v.ticks;
        closing = rw v.closing refl;
      },
    )
    | inr k ↦ rw k (refl, v)
  ]

  -- Bytes that arrive in two pieces, at whatever times, are answered as the same bytes in one piece,
  -- and leave the same behind, provided that the connection has a session, that what the first piece
  -- leaves is not too long for a line, and that each request is handled in the same second, which is
  -- what its message is stored and sent with; only the counters may differ.
  pub on_message-append :
      (t u v : ℕ) (a b : Text) (n : Node St)
      → is_some (n.server.sessions c) ≡ true
      → length (rest_of a) ≤ max_request_line_bytes
      → let first = on_message db clock t c a n in
        let second = on_message db clock u c (first.0 ++ b) first.1 in
        let whole = on_message db later v c (a ++ b) n in
        (second.0 ≡ whole.0) × IsSame second.1 whole.1
  on_message-append t u v a b n here short =
      let kept = handle_lines-session db clock c t (lines_of a) n here in
      let joined = lines_of-append a b in
      rw
        (
          on_message-lines db clock c t a n here,
          check_rest-short db clock c t (rest_of a) (handle_lines db clock c t (lines_of a) n)
              short,
          on_message-lines db clock c u (rest_of a ++ b) (handle_lines db clock c t (lines_of a) n)
              kept,
          on_message-lines db later c v (a ++ b) n here,
          joined.0,
          joined.1,
          handle_lines-append db later c v (lines_of a) (lines_of (rest_of a ++ b)) n,
        )
        (check_rest-IsSame u v (rest_of (rest_of a ++ b)) _ _ (
          handle_lines-IsSame u v (lines_of (rest_of a ++ b)) _ _ (
            handle_lines-IsSame t v (lines_of a) n n
              (record { server = refl; ticks = refl; closing = refl }))))
