-- ===== src/Tests/ProgramRuns.antt =====
-- The command line of server/main.cc, and a client of tools/StressClient.cc.
use chat_service.Base.{
  Text, ◌++◌, ◌≤◌, ℕ, ◌+◌, ◌-◌, ◌*◌, ◌<◌, List, [], ◌∷◌, some, true, codes, Every, ◌≡◌, ◌↔◌, ◌⊎◌,
  arith,
}
use chat_service.Json.{serialize_json_object}
use chat_service.LoadTest.{LoadMetrics, name_of, payload, handle_line}
use chat_service.LoadTest.Latency.{handle_line-own_message}
use chat_service.LoadTest.Thread.{Round, no_metrics, client_thread}
use chat_service.LoadTest.Thread.Pace.{IsNumbered, client_thread-IsPaced}
use chat_service.Server.Chat.{private_event}
use chat_service.Server.Metrics.{wrap}
use chat_service.StartUp.{ServerOptions, parsed, from_environment, default_options, parse_options}
use chat_service.StartUp.Options.{Setting, arguments_of, options_of, parse_options_iff}

abbrev chosen : ServerOptions
chosen = record { db_path = codes "b"; dump_path = codes "o.json"; dump_history = true }

parse_options_iff_example :
    (parse_options
        (some (codes "a"))
        (codes "--db" ∷ codes "b" ∷ codes "--dump-history" ∷ codes "o.json" ∷ [])
      ≡ parsed chosen)
    ↔ ((ss : List Setting) × (codes "--db"
            ∷ codes "b"
            ∷ codes "--dump-history"
            ∷ codes "o.json"
            ∷ []
          ≡ arguments_of ss)
        × (chosen ≡ options_of ss (from_environment (some (codes "a")) default_options)))
parse_options_iff_example =
    parse_options_iff (some (codes "a"))
      (codes "--db" ∷ codes "b" ∷ codes "--dump-history" ∷ codes "o.json" ∷ []) chosen

handle_line-own_message_example :
    handle_line 1_700
      (serialize_json_object (private_event (codes "stress_3") (payload (name_of 3) 8 1_500) 41 2))
      no_metrics
    ≡ record no_metrics {
      latency_micros = wrap (0 + (1_700 - 1_500));
      latency_samples = wrap (0 + 1);
      messages_received = wrap (0 + 1);
    }
handle_line-own_message_example =
    handle_line-own_message 3 8 1_500 1_700 41 2 (codes "stress_3") no_metrics (omega arith)
      (omega arith) (omega arith)

abbrev round_at : ℕ → Round
round_at now = record {
  checked = now;
  now = now + 3;
  system_time = 1_700_000 + now;
  sends = true;
  clock = λ n. n;
  pieces = [];
}

abbrev rounds : List Round
rounds = round_at 10 ∷ round_at 20_010 ∷ round_at 1_000_010 ∷ []

rounds-IsNear : Every (λ r. r.now ≤ r.checked + 5) rounds
rounds-IsNear = (omega arith, (omega arith, (omega arith, tt)))

client_thread-IsPaced_example :
    (sent : List Text) × (metrics : LoadMetrics) × (n : ℕ) × (client_thread 3 true true 1_700_000 10
        2_000_010
        (rounds ++ round_at 2_000_010 ∷ [])
        (λ k. k)
        []
        no_metrics
      ≡ some (sent, metrics))
    × IsNumbered (name_of 3) n sent
    × (metrics.messages_sent ≡ wrap n)
    × ((n ≡ 0) ⊎ (10 + n * 1_000_000 < 2_000_010 + 5 + 1_000_000))
client_thread-IsPaced_example =
    client_thread-IsPaced 3 1_700_000 10 2_000_010 5 rounds (round_at 2_000_010) (λ k. k) []
      rounds-IsNear (omega arith)
