-- ===== src/Server/World.antt =====
-- The whole server as bytes arrive: server/ChatServer.cc with the input buffer that the network
-- library keeps for each connection.
pub mod Kept
use chat_service.Base.{
  ℕ, Text, Bool, true, false, List, [], ◌∷◌, ◌++◌, Option, none, some, ◌==◌, ◌≡◌, if◌then◌else◌,
}
use chat_service.Server.Invariant.AllRequests.{started_server}
use chat_service.Server.Lines.Loop.{
  Reading, Node, connection_opened, connection_closed, performance_stats, on_message,
}
use chat_service.Server.Metrics.{MetricsSnapshot, no_metrics}
use chat_service.Server.State.{Storage}
use chat_service.UserManager.{Connection}

-- `buffers` has the bytes of each connection that are not used up, and `printed` the statistics so
-- far, the last first.
pub record World (St : Type 0) : Type 0 where
  pub node : Node St
  pub buffers : Connection → Text
  pub printed : List MetricsSnapshot

-- What the network library and the timer call: bytes come with the time of their arrival.
pub data Input : Type 0 where
  opens closes : Connection → Input
  receives : Connection → ℕ → Text → Input
  interval : Input

abbrev pub started_world : {St : Type 0} → St → World St
started_world store = record {
  node = record {
    server = started_server store;
    metrics = no_metrics;
    ticks = 0;
    closing = λ c. false;
  };
  buffers = λ c. [];
  printed = [];
}

module _ {St : Type 0} (db : Storage St) (clock : ℕ → Reading) where
  unfoldable pub react : Input → World St → World St
  unfolding connection_opened connection_closed on_message performance_stats
  react (opens c) w = record w { node = connection_opened c w.node }
  react (closes c) w = record w { node = connection_closed c w.node }
  react (receives c time bytes) w =
      let (rest, node) = on_message db clock time c (w.buffers c ++ bytes) w.node in
      record w { node = node; buffers = λ d. if c == d then rest else w.buffers d }
  react interval w =
      let (node, snapshot) = performance_stats w.node in
      record w { node = node; printed = snapshot ∷ w.printed }

  unfoldable pub live : World St → List Input → World St
  unfolding react
  live w [] = w
  live w (i ∷ is) = live (react i w) is

  -- Each connection that is opened is new.
  abbrev pub OpensNew : World St → List Input → Type 0
  OpensNew w [] = Unit {0}
  OpensNew w (opens c ∷ is) = (w.node.server.sessions c ≡ none) × OpensNew (react (opens c) w) is
  OpensNew w (closes c ∷ is) = OpensNew (react (closes c) w) is
  OpensNew w (receives c time bytes ∷ is) = OpensNew (react (receives c time bytes) w) is
  OpensNew w (interval ∷ is) = OpensNew (react interval w) is
