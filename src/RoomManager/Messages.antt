-- ===== src/RoomManager/Messages.antt =====
-- Who gets a room message: `membersForMessage` and `roomCount` of server/RoomManager.cc.
use chat_service.Base.{
  Text, TextMap, TextSet, Bool, true, false, ◌&&◌, ◌||◌, List, [], ◌∷◌, ◌<◌, find, keys, has,
  text_eq, ◌≡◌, ◌↔◌, refl, arith, Option-cases, inl, inr,
}
use chat_service.Status.{success}
use chat_service.RoomManager.{RoomManager, active_rooms, room_count, members_for_message}
use chat_service.RoomManager.Membership.{member, in_room, has-nil, no_members-has}

unfoldable pub contains : Text → List Text → Bool
contains w [] = false
contains w (x ∷ xs) = text_eq x w || contains w xs

contains-keys : (w : Text) (s : TextSet) → contains w (keys s) ≡ has w s
unfolding contains keys find
contains-keys w [] = refl
contains-keys w ((x, v) ∷ s) = ground (arith, contains-keys w s)

contains-nil : (w : Text) → contains w [] ≡ false
unfolding contains
contains-nil w = refl

-- A message to a room goes ahead exactly if its sender is in the room; the list of receivers then
-- holds exactly the members, and it is empty if the message is refused.
pub members_for_message-members :
    (room u w : Text) (m : RoomManager)
    → (((members_for_message room u m).1 ≡ success) ↔ (in_room room u m ≡ true))
      × (contains w (members_for_message room u m).0 ≡ (in_room room u m && in_room room w m))
unfolding members_for_message
members_for_message-members room u w m = elim (Option-cases (find room m.rooms)) [
  | inl e ↦ (
    (λ h. ground (arith, e), λ h. ground (arith, e, has-nil u)),
    ground (arith, e, has-nil u, contains-nil w),
  )
  | inr (s, e) ↦ (
    (λ h. ground (arith, e), λ h. ground (arith, e)),
    ground (arith, e, contains-keys w s, contains-nil w),
  )
]

active_rooms-pos : (t : TextMap TextSet) (r u : Text) → member r u t ≡ true → 0 < active_rooms t
unfolding active_rooms find
active_rooms-pos [] r u h = absurd (ground (arith, has-nil u))
active_rooms-pos ((q, s) ∷ t) r u h = ground (arith, no_members-has s u, active_rooms-pos t r u)

-- While anybody is in any room, the number of active rooms is not zero.
pub room_count-pos : (m : RoomManager) (r u : Text) → in_room r u m ≡ true → 0 < room_count m
unfolding room_count
room_count-pos m r u h = active_rooms-pos m.rooms r u h
