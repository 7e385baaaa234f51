-- ===== src/Tests/ServerRuns.antt =====
-- Runs of the server of server/ChatServer.cc with a storage that numbers the messages and keeps none.
use chat_service.Base.{
  ℕ, suc, List, [], ◌∷◌, some, codes, find, insert, is_empty, text_eq, text_lt, true, false, not,
  ◌&&◌, ◌≡◌, ◌≤◌, refl,
}
use chat_service.Json.{JsonObject}
use chat_service.Protocol.{field_or_empty}
use chat_service.Server.Guests.{IsUnchanged, handle_request-IsUnchanged}
use chat_service.Names.{is_valid_name}
use chat_service.RoomManager
use chat_service.RoomManager.Membership.{in_room}
use chat_service.UserManager
use chat_service.UserManager.{find_many}
use chat_service.Server.Accounts.{login, logged_in}
use chat_service.Server.Chat.{create_room, join_room, room_answer, send_room_message, send_private}
use chat_service.Server.Receivers.{
  reaches, receivers, told_room, send_room_message-reaches, told_target, send_private-reaches,
}
use chat_service.Server.Requests.{handle_request, open_connection}
use chat_service.Server.Invariant.AllRequests.{
  Event, connect, request, disconnect, started_server, serve, Arrives, serve-IsServing,
}
use chat_service.Server.Invariant.Serving.{IsServing}
use chat_service.Server.Numbers.{parse_history_limit, parse_history_limit_bounds}
use chat_service.Server.State.{ChatServer, Storage, username}

abbrev pub counting : Storage ℕ
counting = record {
  save_private_message = λ from target message now n. (some n, suc n);
  save_room_message = λ room from message now n. (some n, suc n);
  load_private_history = λ user peer limit before n. [];
  load_room_history = λ room limit before n. [];
}

abbrev login_request : JsonObject
login_request = (codes "type", codes "login") ∷ (codes "username", codes "ann") ∷ []

abbrev visit : List Event
visit = connect 1 ∷ request 1 login_request ∷ disconnect 1 ∷ []

visit-Arrives : Arrives counting 0 (started_server 1) visit
visit-Arrives = (refl, tt)

serve-IsServing_example : IsServing (serve counting 0 (started_server 1) visit)
serve-IsServing_example = serve-IsServing counting 0 1 visit visit-Arrives

parse_history_limit_bounds_example :
    (1 ≤ parse_history_limit (codes "900")) × (parse_history_limit (codes "900") ≤ 500)
parse_history_limit_bounds_example = parse_history_limit_bounds (codes "900")

-- A message from a connection that has not logged in.
abbrev message_request : JsonObject
message_request =
    (codes "message", codes "hi")
    ∷ (codes "target", codes "bob")
    ∷ (codes "type", codes "private")
    ∷ []

abbrev started : ChatServer ℕ
started = started_server 1

no_name : is_empty (username 1 started) ≡ true
unfolding is_empty
no_name = refl

no_login : text_eq (field_or_empty message_request (codes "type")) (codes "login") ≡ false
unfolding field_or_empty find text_eq codes
no_login = refl

handle_request-IsUnchanged_example :
    IsUnchanged started (handle_request counting 0 1 message_request started)
handle_request-IsUnchanged_example =
    handle_request-IsUnchanged counting 0 1 message_request started no_name no_login

-- ann in the room den.
abbrev arrival : List Event
arrival =
    connect 1
    ∷ request 1 login_request
    ∷ request 1 ((codes "room", codes "den") ∷ (codes "type", codes "create_room") ∷ [])
    ∷ request 1 ((codes "room", codes "den") ∷ (codes "type", codes "join") ∷ [])
    ∷ []

abbrev arrived : ChatServer ℕ
arrived = serve counting 0 started arrival

arrived-IsServing : IsServing arrived
arrived-IsServing = serve-IsServing counting 0 1 arrival (refl, tt)

arrived_facts :
    (arrived.sessions 1 ≡ some (codes "ann"))
    × (in_room (codes "den") (codes "ann") arrived.rooms ≡ true)
    × (counting.save_room_message (codes "den") (codes "ann") (codes "hi") 0 arrived.store
        ≡ (some 1, 2))
    × (counting.save_private_message (codes "ann") (codes "bob") (codes "hi") 0 arrived.store
        ≡ (some 1, 2))
unfolding serve login create_room join_room room_answer logged_in UserManager.login
    RoomManager.create_room RoomManager.join_room is_valid_name find insert text_eq text_lt codes
    is_empty field_or_empty handle_request open_connection
arrived_facts = (refl, refl, refl, refl)

ann_full : is_empty (codes "ann") ≡ false
unfolding is_empty codes
ann_full = refl

hi_full : is_empty (codes "hi") ≡ false
unfolding is_empty codes
hi_full = refl

send_room_message-reaches_example :
    (send_room_message counting 0 1 (codes "den") (codes "hi") arrived
      ≡ told_room (codes "den") (codes "ann") (codes "hi") 1 0 2 arrived)
    × (reaches 1 (receivers (codes "den") (codes "ann") arrived) ≡ (
        in_room (codes "den") (username 1 arrived) arrived.rooms
        && not (is_empty (username 1 arrived))))
send_room_message-reaches_example =
    send_room_message-reaches counting 0 arrived arrived-IsServing 1 1 (codes "ann") (codes "den")
      (codes "hi") 1 2 arrived_facts.0 ann_full hi_full arrived_facts.1 arrived_facts.2

bob_valid : is_valid_name (codes "bob") ≡ true
unfolding is_valid_name codes is_empty
bob_valid = refl

send_private-reaches_example :
    (send_private counting 0 1 (codes "bob") (codes "hi") arrived
      ≡ told_target 1 (codes "ann") (codes "bob") (codes "hi") 1 0 2 arrived)
    × (reaches 1 (find_many (codes "bob" ∷ []) arrived.users)
        ≡ text_eq (codes "bob") (username 1 arrived))
send_private-reaches_example =
    send_private-reaches counting 0 arrived arrived-IsServing 1 1 (codes "ann") (codes "bob")
      (codes "hi") 1 2 arrived_facts.0 ann_full bob_valid hi_full arrived_facts.3
