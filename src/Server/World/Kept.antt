-- ===== src/Server/World/Kept.antt =====
-- What holds of the server of server/ChatServer.cc at all times, whatever bytes arrive.
use chat_service.Base.{
  ℕ, zero, suc, ◌+◌, Text, List, [], ◌∷◌, ◌++◌, none, ◌≡◌, refl, arith, inl, inr, Option-cases,
  Bool-cases, length, ltb,
}
use chat_service.Json.{JsonObject, ok, err, out_of_fuel, parse_json_object}
use chat_service.Json.Parsed.{Parsed}
use chat_service.Server.Invariant.AllRequests.{
  started_server-IsServing, handle_request-IsServing, open_connection-IsServing,
  close_connection-IsServing,
}
use chat_service.Server.Invariant.Serving.{IsServing}
use chat_service.Server.Lines.Loop.{
  Reading, Node, connection_opened, connection_closed, performance_stats, refuse_long,
  handle_object, handle_parsed, handle_text, handle_line, read_loop, check_rest, on_message,
  max_request_line_bytes,
}
use chat_service.Server.Lines.Split.{take_line, strip_return}
use chat_service.Server.Metrics.{
  MetricsSnapshot, wrap, record_message, record_connection_opened, record_connection_dropped,
  snapshot_and_reset,
}
use chat_service.Server.State.{Storage}
use chat_service.Server.World.{
  World, Input, opens, closes, receives, interval, started_world, react, live, OpensNew,
}
use chat_service.UserManager.{Connection}

-- The messages of all printed intervals.
unfoldable pub reported : List MetricsSnapshot → ℕ
reported [] = 0
reported (s ∷ ss) = s.reported_messages + reported ss

-- The parts of the server agree, every request was counted once in all and once in an interval, and
-- each interval has a latency for each of its messages.
pub record IsLive {St : Type 0} (n : Node St) (printed : List MetricsSnapshot) : Type 0 where
  pub serving : IsServing n.server
  pub counted : n.metrics.total_messages ≡ wrap n.ticks
  pub shared : wrap (n.metrics.interval_messages + reported printed) ≡ wrap n.ticks
  pub sampled : n.metrics.interval_latency_samples ≡ n.metrics.interval_messages

module _ {St : Type 0} (db : Storage St) (clock : ℕ → Reading)
    (printed : List MetricsSnapshot) where
  module _ (t : ℕ) (c : Connection) where
    handle_parsed-IsLive :
        (p : Parsed JsonObject) (n : Node St)
        → IsLive n printed
        → IsLive (handle_parsed db clock t c p n) printed
    unfolding handle_parsed handle_object record_message
    handle_parsed-IsLive (ok request rest) n v = record {
      serving = handle_request-IsServing db (clock n.ticks).seconds c request n.server v.serving;
      counted = omega (arith, v.counted);
      shared = omega (arith, v.shared);
      sampled = omega (arith, v.sampled);
    }
    handle_parsed-IsLive (err e) n v = record {
      serving = record { at = v.serving.at };
      counted = v.counted;
      shared = v.shared;
      sampled = v.sampled;
    }
    handle_parsed-IsLive out_of_fuel n v = v

    handle_text-IsLive :
        (line : Text) (n : Node St)
        → IsLive n printed
        → IsLive (handle_text db clock t c line n) printed
    unfolding handle_text
    handle_text-IsLive [] n v = v
    handle_text-IsLive (b ∷ line) n v = handle_parsed-IsLive (parse_json_object (b ∷ line)) n v

    read_loop-IsLive :
        (fuel : ℕ) (buffer : Text) (n : Node St)
        → IsLive n printed
        → IsLive (read_loop db clock t c fuel buffer n).1 printed
    unfolding read_loop handle_line
    read_loop-IsLive zero buffer n v = v
    read_loop-IsLive (suc fuel) buffer n v = elim (Option-cases (take_line buffer)) [
      | inl k ↦ rw (k, read_loop) v
      | inr ((line, rest), k) ↦
          rw (k, read_loop)
            (read_loop-IsLive fuel rest (handle_line db clock t c line n)
              (handle_text-IsLive (strip_return line) n v))
    ]

    check_rest-IsLive :
        (rest : Text) (n : Node St)
        → IsLive n printed
        → IsLive (check_rest db clock t c (rest, n)).1 printed
    unfolding check_rest refuse_long
    check_rest-IsLive rest n v = elim (Bool-cases (ltb max_request_line_bytes (length rest))) [
      | inl k ↦
          rw (k, check_rest)
            (record {
              serving = record { at = v.serving.at };
              counted = v.counted;
              shared = v.shared;
              sampled = v.sampled;
            })
      | inr k ↦ rw (k, check_rest) v
    ]

    on_message-IsLive :
        (buffer : Text) (n : Node St)
        → IsLive n printed
        → IsLive (on_message db clock t c buffer n).1 printed
    unfolding on_message
    on_message-IsLive buffer n v = elim (Option-cases (n.server.sessions c)) [
      | inl k ↦ rw (k, on_message) v
      | inr (name, k) ↦
          let r = read_loop db clock t c (suc (length buffer)) buffer n in
          rw (k, on_message)
            (check_rest-IsLive r.0 r.1 (read_loop-IsLive (suc (length buffer)) buffer n v))
    ]

module _ {St : Type 0} where
  opened-IsLive :
      (c : Connection) (n : Node St) (printed : List MetricsSnapshot)
      → IsLive n printed
      → n.server.sessions c ≡ none
      → IsLive (connection_opened c n) printed
  unfolding connection_opened record_connection_opened
  opened-IsLive c n printed v fresh = record {
    serving = open_connection-IsServing c n.server v.serving fresh;
    counted = v.counted;
    shared = v.shared;
    sampled = v.sampled;
  }

  closed-IsLive :
      (c : Connection) (n : Node St) (printed : List MetricsSnapshot)
      → IsLive n printed
      → IsLive (connection_closed c n) printed
  unfolding connection_closed record_connection_dropped
  closed-IsLive c n printed v = record {
    serving = close_connection-IsServing c n.server v.serving;
    counted = v.counted;
    shared = v.shared;
    sampled = v.sampled;
  }

  stats-IsLive :
      (n : Node St) (printed : List MetricsSnapshot)
      → IsLive n printed
      → IsLive (performance_stats n).0 ((performance_stats n).1 ∷ printed)
  unfolding performance_stats snapshot_and_reset reported
  stats-IsLive n printed v = record {
    serving = record { at = v.serving.at };
    counted = v.counted;
    shared = omega (arith, v.shared);
    sampled = refl;
  }

  started-IsLive : (store : St) → IsLive (started_world store).node []
  unfolding reported
  started-IsLive store = record {
    serving = started_server-IsServing store;
    counted = refl;
    shared = refl;
    sampled = refl;
  }

module _ {St : Type 0} (db : Storage St) (clock : ℕ → Reading) where
  live_from-IsLive :
      (w : World St) (is : List Input)
      → IsLive w.node w.printed
      → OpensNew db clock w is
      → IsLive (live db clock w is).node (live db clock w is).printed
  unfolding live
  live_from-IsLive w [] v new = v
  live_from-IsLive w (opens c ∷ is) v new =
      live_from-IsLive (react db clock (opens c) w) is
        (unfold react in opened-IsLive c w.node w.printed v new.0) new.1
  live_from-IsLive w (closes c ∷ is) v new =
      live_from-IsLive (react db clock (closes c) w) is
        (unfold react in closed-IsLive c w.node w.printed v) new
  live_from-IsLive w (receives c time bytes ∷ is) v new =
      live_from-IsLive (react db clock (receives c time bytes) w) is
        (unfold react in
          on_message-IsLive db clock w.printed time c (w.buffers c ++ bytes) w.node v)
        new
  live_from-IsLive w (interval ∷ is) v new =
      live_from-IsLive (react db clock interval w) is
        (unfold react in stats-IsLive w.node w.printed v) new

  -- From the start, whatever bytes arrive on the connections, however these come and go, and whenever
  -- the statistics are printed, each connection being new when it is opened and each call running
  -- alone: users, rooms, calls and sessions agree; and, as numbers of 64 bits, the counter of all
  -- messages is the number of requests handled, which are the messages of the printed intervals and
  -- of the running one together; and the running one has as many latencies as messages.
  pub live-IsLive :
      (store : St) (is : List Input)
      → OpensNew db clock (started_world store) is
      → IsLive
          (live db clock (started_world store) is).node
          (live db clock (started_world store) is).printed
  live-IsLive store is new = live_from-IsLive (started_world store) is (started-IsLive store) new
