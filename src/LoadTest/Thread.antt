-- ===== src/LoadTest/Thread.antt =====
-- `clientThread` of tools/StressClient.cc: one client of the load test, from its connection on.
pub mod Pace
use chat_service.Base.{
  ℕ, suc, ◌+◌, Text, Bool, true, false, List, [], ◌∷◌, Option, none, some, leb, ltb, if◌then◌else◌,
}
use chat_service.LoadTest.{LoadMetrics, make_login_line, make_private_line, name_of, drain_socket}
use chat_service.Server.Metrics.{wrap}

-- The variables of the thread; `sent` has the lines that went out whole, the last first.
pub record Client : Type 0 where
  pub username : Text
  pub sequence : ℕ
  pub next_send : ℕ
  pub buffer : Text
  pub metrics : LoadMetrics
  pub sent : List Text

-- What the world does in one round of the loop: the steady clock as the loop checks it and once more
-- inside, the time of the system as a message is made, whether `sendAll` succeeds, and what there is
-- to be received, with the times of its lines.
pub record Round : Type 0 where
  pub checked : ℕ
  pub now : ℕ
  pub system_time : ℕ
  pub sends : Bool
  pub clock : ℕ → ℕ
  pub pieces : List Text

unfoldable pub drained : (ℕ → ℕ) → List Text → Client → Client
unfolding drain_socket
drained clock pieces c =
    let (buffer, metrics) = drain_socket clock pieces c.buffer c.metrics in
    record c { buffer = buffer; metrics = metrics }

-- A message goes out, and the next is due a second later.
unfoldable pub send_private : ℕ → Client → Client
unfolding make_private_line
send_private system_time c = record c {
  sequence = suc c.sequence;
  next_send = c.next_send + 1_000_000;
  metrics = record c.metrics { messages_sent = wrap (c.metrics.messages_sent + 1) };
  sent = make_private_line c.username (suc c.sequence) system_time ∷ c.sent;
}

-- The loop up to the end of the test; a message that cannot be sent ends it, too. `none` stands for a
-- loop that still runs after the given rounds.
unfoldable pub client_rounds : ℕ → List Round → Client → Option Client
unfolding drained send_private
client_rounds end [] c = none
client_rounds end (r ∷ rounds) c =
    let idle = client_rounds end rounds (drained r.clock r.pieces c) in
    let busy = client_rounds end rounds (drained r.clock r.pieces (send_private r.system_time c)) in
    if ltb r.checked end
    then if leb c.next_send r.now
      then if r.sends then busy else some (record c { sequence = suc c.sequence })
      else idle
    else some c

abbrev pub no_metrics : LoadMetrics
no_metrics = record {
  connection_attempts = 0;
  connection_successes = 0;
  connection_failures = 0;
  messages_sent = 0;
  messages_received = 0;
  latency_micros = 0;
  latency_samples = 0;
}

-- A client that is connected and has sent its login.
abbrev pub logged_in : ℕ → ℕ → ℕ → LoadMetrics → Client
logged_in client system_time start metrics = record {
  username = name_of client;
  sequence = 0;
  next_send = start;
  buffer = [];
  metrics = metrics;
  sent = make_login_line (name_of client) system_time ∷ [];
}

abbrev attempted : Bool → LoadMetrics → LoadMetrics
attempted true m = record m {
  connection_attempts = wrap (m.connection_attempts + 1);
  connection_successes = wrap (m.connection_successes + 1);
}
attempted false m = record m {
  connection_attempts = wrap (m.connection_attempts + 1);
  connection_failures = wrap (m.connection_failures + 1);
}

-- Behind the loop.
unfoldable pub finish_client :
    (ℕ → ℕ) → List Text → Option Client → Option (List Text × LoadMetrics)
unfolding drained
finish_client clock pieces none = none
finish_client clock pieces (some c) = let d = drained clock pieces c in some (d.sent, d.metrics)

-- The thread: what it has sent, the last first, and the counters. `clock` and `pieces` are for what
-- there is to be received behind the loop.
unfoldable pub client_thread :
    ℕ
    → Bool
    → Bool
    → ℕ
    → ℕ
    → ℕ
    → List Round
    → (ℕ → ℕ)
    → List Text
    → LoadMetrics
    → Option (List Text × LoadMetrics)
unfolding client_rounds finish_client make_login_line
client_thread client connects logs_in system_time start end rounds clock pieces m =
    let done =
      finish_client clock pieces
        (client_rounds end rounds (logged_in client system_time start (attempted true m))) in
    if connects
    then if logs_in then done else some ([], attempted true m)
    else some ([], attempted false m)
