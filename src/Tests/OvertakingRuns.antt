-- ===== src/Tests/OvertakingRuns.antt =====
-- ann invites bob while bob logs out, on the server of server/ChatServer.cc.
use chat_service.Base.{
  ℕ, List, [], ◌∷◌, codes, none, some, false, find, insert, is_empty, text_eq, text_lt, ◌≡◌, refl,
}
use chat_service.CallManager.{idle, ringing, calling, state_for_user}
use chat_service.Json.{JsonObject}
use chat_service.Names.{is_valid_name, is_valid_call_id}
use chat_service.Protocol.{field_or_empty}
use chat_service.Server.Accounts.{login, logged_in}
use chat_service.Server.Calls.{handle_call_request}
use chat_service.Server.Invariant.AllRequests.{
  Event, connect, request, started_server, Arrives, step, serve, serve-IsServing,
}
use chat_service.Server.Invariant.Serving.{IsServing}
use chat_service.Server.Races.{IsInvitation, leave_call, leave_rest, overtaken-logout}
use chat_service.Server.Requests.{handle_request, open_connection}
use chat_service.Server.State.{ChatServer}
use chat_service.Tests.ServerRuns.{counting}
use chat_service.UserManager
use chat_service.UserManager.{find_user}

abbrev login_of : List ℕ → JsonObject
login_of name = (codes "type", codes "login") ∷ (codes "username", name) ∷ []

abbrev visits : List Event
visits =
    connect 1
    ∷ request 1 (login_of (codes "ann"))
    ∷ connect 2
    ∷ request 2 (login_of (codes "bob"))
    ∷ []

abbrev both : ChatServer ℕ
both = serve counting 0 (started_server 0) visits

both_facts :
    (both.sessions 1 ≡ some (codes "ann"))
    × (both.sessions 2 ≡ some (codes "bob"))
    × (state_for_user (codes "ann") both.calls ≡ idle)
    × (find (codes "c1") both.calls.calls ≡ none)
unfolding serve login logged_in UserManager.login is_valid_name find insert text_eq text_lt codes
    is_empty field_or_empty handle_request open_connection state_for_user
both_facts = (refl, refl, refl, refl)

visits-Arrives : Arrives counting 0 (started_server 0) visits
unfolding serve step handle_request open_connection login logged_in field_or_empty find text_eq
    codes is_valid_name is_empty UserManager.login
visits-Arrives = (refl, (refl, tt))

both-IsServing : IsServing both
both-IsServing = serve-IsServing counting 0 0 visits visits-Arrives

names_facts :
    (is_empty (codes "ann") ≡ false)
    × (is_empty (codes "bob") ≡ false)
    × (text_eq (codes "bob") (codes "ann") ≡ false)
unfolding codes is_empty text_eq
names_facts = (refl, refl, refl)

abbrev invitation : JsonObject
invitation =
    (codes "call_id", codes "c1")
    ∷ (codes "media", codes "video")
    ∷ (codes "to", codes "bob")
    ∷ (codes "type", codes "call_invite")
    ∷ []

invitation-IsInvitation : IsInvitation invitation (codes "bob") (codes "c1")
unfolding field_or_empty find text_eq codes is_valid_name is_valid_call_id is_empty
invitation-IsInvitation = record {
  type = refl;
  to = refl;
  call_id = refl;
  media = refl;
  valid_name = refl;
  valid_id = refl;
}

abbrev after : ChatServer ℕ
after =
    leave_rest 2 (codes "bob") (handle_call_request 1 invitation (leave_call (codes "bob") both))

overtaken-logout_example :
    (find_user (codes "bob") after.users ≡ none)
    × (state_for_user (codes "bob") after.calls ≡ ringing)
    × (state_for_user (codes "ann") after.calls ≡ calling)
overtaken-logout_example =
    overtaken-logout both both-IsServing 1 2 (codes "ann") (codes "bob") (codes "c1") invitation
      both_facts.0 names_facts.0 both_facts.1 names_facts.1 names_facts.2 both_facts.2 both_facts.3
      invitation-IsInvitation
