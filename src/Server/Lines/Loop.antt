-- ===== src/Server/Lines/Loop.antt =====
-- The loop of `onMessage` on the state of the server, its counters and its clock.
use chat_service.Base.{
  ℕ, zero, suc, Text, Bool, true, none, some, [], ◌∷◌, ◌++◌, codes, ltb, ◌==◌, length,
  if◌then◌else◌,
}
use chat_service.Json.Parsed.{Parsed}
use chat_service.Json.{JsonObject, ok, err, out_of_fuel, parse_json_object}
use chat_service.RoomManager.{room_count}
use chat_service.Server.Lines.Split.{take_line, strip_return}
use chat_service.Server.Metrics.{
  ServerMetrics, MetricsSnapshot, record_connection_opened, record_connection_dropped,
  record_message, request_latency_micros, snapshot_and_reset,
}
use chat_service.Server.Requests.{handle_request, open_connection, close_connection}
use chat_service.Server.State.{ChatServer, Storage, send_error}
use chat_service.UserManager.{Connection, online_count}

-- What the clock says while one request is handled: microseconds for its latency, and seconds for
-- the message that it may store.
pub record Reading : Type 0 where
  pub micros : ℕ
  pub seconds : ℕ

-- The server with its counters; `ticks` counts the requests so far, and `closing` has the
-- connections that are to be closed by force.
pub record Node (St : Type 0) : Type 0 where
  pub server : ChatServer St
  pub metrics : ServerMetrics
  pub ticks : ℕ
  pub closing : Connection → Bool

abbrev pub max_request_line_bytes : ℕ
max_request_line_bytes = 65_536

module _ {St : Type 0} where
  abbrev pub with_server : ChatServer St → Node St → Node St
  with_server server n = record n { server = server }

  -- `onConnection`
  unfoldable pub connection_opened : Connection → Node St → Node St
  connection_opened c n = record n {
    server = open_connection c n.server;
    metrics = record_connection_opened n.metrics;
  }

  unfoldable pub connection_closed : Connection → Node St → Node St
  connection_closed c n = record n {
    server = close_connection c n.server;
    metrics = record_connection_dropped n.metrics;
  }

  -- `printPerformanceStats`: what it prints, at the interval of five seconds.
  unfoldable pub performance_stats : Node St → Node St × MetricsSnapshot
  performance_stats n =
      let (metrics, snapshot) =
        snapshot_and_reset (online_count n.server.users) (room_count n.server.rooms) 5 n.metrics in
      (record n { metrics = metrics }, snapshot)

  -- The buffer is too long and has no line break.
  unfoldable pub refuse_long : Connection → Node St → Node St
  refuse_long c n = record n {
    server = send_error c (codes "request line is too large") n.server;
    closing = λ d. if c == d then true else n.closing d;
  }

module _ {St : Type 0} (db : Storage St) (clock : ℕ → Reading) (receive_time : ℕ)
    (c : Connection) where
  -- A request that was read: it is counted, then handled.
  unfoldable pub handle_object : JsonObject → Node St → Node St
  handle_object request n = record n {
    server = handle_request db (clock n.ticks).seconds c request n.server;
    metrics =
        record_message (request_latency_micros request receive_time (clock n.ticks).micros)
          n.metrics;
    ticks = suc n.ticks;
  }

  -- What the reader made of a line.
  unfoldable pub handle_parsed : Parsed JsonObject → Node St → Node St
  unfolding handle_object
  handle_parsed (ok request rest) n = handle_object request n
  handle_parsed (err e) n = with_server (send_error c (codes "invalid json: " ++ e) n.server) n
  handle_parsed out_of_fuel n = n

  -- A line without its end.
  unfoldable pub handle_text : Text → Node St → Node St
  unfolding handle_parsed
  handle_text [] n = n
  handle_text (b ∷ line) n = handle_parsed (parse_json_object (b ∷ line)) n

  unfoldable pub handle_line : Text → Node St → Node St
  unfolding handle_text
  handle_line line n = handle_text (strip_return line) n

  -- The loop; each round takes a line out of the buffer.
  unfoldable pub read_loop : ℕ → Text → Node St → Text × Node St
  unfolding take_line handle_line
  read_loop zero buffer n = (buffer, n)
  read_loop (suc fuel) buffer n = elim (take_line buffer) [
    | none ↦ (buffer, n)
    | some (line, rest) ↦ read_loop fuel rest (handle_line line n)
  ]

  -- Behind the loop.
  unfoldable pub check_rest : Text × Node St → Text × Node St
  unfolding refuse_long
  check_rest (rest, n) =
      if ltb max_request_line_bytes (length rest) then (rest, refuse_long c n) else (rest, n)

  -- What is left of the buffer, and the server.
  unfoldable pub on_message : Text → Node St → Text × Node St
  unfolding read_loop check_rest
  on_message buffer n = elim (n.server.sessions c) [
    | none ↦ (buffer, n)
    | some name ↦ check_rest (read_loop (suc (length buffer)) buffer n)
  ]
