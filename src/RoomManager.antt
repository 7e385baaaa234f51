-- ===== src/RoomManager.antt =====
-- server/RoomManager.cc: who is in which room. Every method but `createRoom`, which first tests the
-- name, holds the mutex throughout, so each is one step on the two maps.
pub mod Membership
pub mod Existence
pub mod Mirror
pub mod Messages
use chat_service.Base.{
  ℕ, Text, TextMap, TextSet, Option, none, some, Bool, true, false, not, List, [], ◌∷◌, ◌+◌, find,
  insert, erase, has, keys, codes, if◌then◌else◌,
}
use chat_service.Names.{is_valid_name}
use chat_service.Status.{Status, success, failure}

pub record RoomManager : Type 0 where
  pub rooms : TextMap TextSet
  pub user_rooms : TextMap TextSet

abbrev pub empty : RoomManager
empty = record { rooms = []; user_rooms = [] }

-- std::set::empty
unfoldable pub no_members : TextSet → Bool
no_members [] = true
no_members (x ∷ s) = false

-- What `userRooms_[username]` refers to: a fresh empty set if there is none.
abbrev pub set_or_empty : Option TextSet → TextSet
set_or_empty none = []
set_or_empty (some s) = s

unfoldable pub create_room : Text → RoomManager → RoomManager × Status
create_room room m =
    if not (is_valid_name room)
    then (m, failure (codes "invalid room name"))
    else if has room m.rooms
    then (m, failure (codes "room already exists"))
    else (record m { rooms = insert room [] m.rooms }, success)

unfoldable pub join_room : Text → Text → RoomManager → RoomManager × Status
join_room room username m = elim (find room m.rooms) [
  | none ↦ (m, failure (codes "room does not exist"))
  | some members ↦ (
    record {
      rooms = insert room (insert username tt members) m.rooms;
      user_rooms =
          insert username (insert room tt (set_or_empty (find username m.user_rooms))) m.user_rooms;
    },
    success,
  )
]

-- The second half of `leaveRoom`, on the rooms of the user.
unfoldable pub forget_room : Text → Text → TextMap TextSet → TextMap TextSet
unfolding no_members
forget_room room username user_rooms = elim (find username user_rooms) [
  | none ↦ user_rooms
  | some s ↦
      if no_members (erase room s)
      then erase username user_rooms
      else insert username (erase room s) user_rooms
]

unfoldable pub leave_room : Text → Text → RoomManager → RoomManager × Status
unfolding forget_room
leave_room room username m = elim (find room m.rooms) [
  | none ↦ (m, failure (codes "room does not exist"))
  | some members ↦
      if not (has username members) then (m, failure (codes "user is not in room")) else (
        record {
          rooms = insert room (erase username members) m.rooms;
          user_rooms = forget_room room username m.user_rooms;
        },
        success,
      )
]

-- The body of the loop of `leaveAll`.
unfoldable pub drop_member : Text → Text → TextMap TextSet → TextMap TextSet
drop_member room username rooms = elim (find room rooms) [
  | none ↦ rooms
  | some members ↦ insert room (erase username members) rooms
]

unfoldable pub drop_from_rooms : TextSet → Text → TextMap TextSet → TextMap TextSet
unfolding drop_member
drop_from_rooms [] username rooms = rooms
drop_from_rooms ((room, _) ∷ rest) username rooms =
    drop_from_rooms rest username (drop_member room username rooms)

unfoldable pub leave_all : Text → RoomManager → RoomManager
unfolding drop_from_rooms
leave_all username m = elim (find username m.user_rooms) [
  | none ↦ m
  | some s ↦ record {
    rooms = drop_from_rooms s username m.rooms;
    user_rooms = erase username m.user_rooms;
  }
]

-- The loop of `roomCount`.
unfoldable pub active_rooms : TextMap TextSet → ℕ
unfolding no_members
active_rooms [] = 0
active_rooms ((room, members) ∷ rooms) = (if no_members members then 0 else 1) + active_rooms rooms

unfoldable pub room_count : RoomManager → ℕ
unfolding active_rooms
room_count m = active_rooms m.rooms

-- The members on success; `members` is cleared first, so an error leaves it empty.
unfoldable pub members_for_message : Text → Text → RoomManager → List Text × Status
members_for_message room username m = elim (find room m.rooms) [
  | none ↦ ([], failure (codes "room does not exist"))
  | some members ↦
      if not (has username members)
      then ([], failure (codes "user is not in room"))
      else (keys members, success)
]
