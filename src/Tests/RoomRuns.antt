-- ===== src/Tests/RoomRuns.antt =====
-- Runs of server/RoomManager.cc and server/UserManager.cc.
use chat_service.Base.{
  has, Text, true, not, ◌&&◌, List, [], ◌∷◌, none, some, has, text_eq, codes, ◌≡◌, ◌↔◌,
  if◌then◌else◌, ◌==◌,
}
use chat_service.Names.{is_valid_name}
use chat_service.Status.{success}
use chat_service.RoomManager
use chat_service.RoomManager.{RoomManager, members_for_message}
use chat_service.RoomManager.Membership.{in_room}
use chat_service.RoomManager.Messages.{contains, members_for_message-members}
use chat_service.RoomManager.Mirror.{
  IsMirrored, RoomOp, create, join, leave_every, perform, run, expected_member, expected_status,
  expected_room, perform-expected, run-IsMirrored,
}
use chat_service.UserManager.{UserManager, login, logout, find_user}
use chat_service.UserManager.Online.{login_lem, logout_lem}

abbrev ann : Text
ann = codes "ann"

abbrev den : Text
den = codes "den"

abbrev visits : List RoomOp
visits = create den ∷ join den ann ∷ []

abbrev visited : RoomManager
visited = run RoomManager.empty visits

visited-IsMirrored : IsMirrored visited
visited-IsMirrored = run-IsMirrored visits

run-IsMirrored_example : IsMirrored (run RoomManager.empty visits)
run-IsMirrored_example = run-IsMirrored visits

perform-expected_example :
    (in_room den ann (perform (leave_every ann) visited).0
      ≡ expected_member (leave_every ann) visited den ann)
    × (has den (perform (leave_every ann) visited).0.rooms
        ≡ expected_room (leave_every ann) visited den)
    × ((perform (leave_every ann) visited).1 ≡ expected_status (leave_every ann) visited)
perform-expected_example = perform-expected visited visited-IsMirrored (leave_every ann) den ann

members_for_message-members_example :
    (((members_for_message den ann visited).1 ≡ success) ↔ (in_room den ann visited ≡ true))
    × (contains ann (members_for_message den ann visited).0
        ≡ (in_room den ann visited && in_room den ann visited))
members_for_message-members_example = members_for_message-members den ann ann visited

abbrev nobody : UserManager
nobody = record { users = [] }

login_lem_example :
    (((login ann 7 nobody).1 ≡ success)
      ↔ ((is_valid_name ann ≡ true) × (find_user ann nobody ≡ none)))
    × (find_user ann (login ann 7 nobody).0 ≡ (
        if text_eq ann ann && is_valid_name ann && not (has ann nobody.users)
        then some 7
        else find_user ann nobody))
login_lem_example = login_lem nobody ann ann 7

logout_lem_example : find_user ann (logout ann 7 (login ann 7 nobody).0) ≡ (
    if text_eq ann ann
    then elim (find_user ann (login ann 7 nobody).0) [
      | none ↦ none
      | some d ↦ if d == 7 then none else some d
    ]
    else find_user ann (login ann 7 nobody).0)
logout_lem_example = logout_lem (login ann 7 nobody).0 ann ann 7
