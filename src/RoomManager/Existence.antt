-- ===== src/RoomManager/Existence.antt =====
-- Which rooms exist after the operations of server/RoomManager.cc.
use chat_service.Base.{
  Text, TextMap, TextSet, ◌&&◌, ◌||◌, [], ◌∷◌, find, erase, insert, has, find-insert, text_eq,
  text_eq_iff, ◌≡◌, refl, ◌∙◌, arith, Option-cases, inl, inr,
}
use chat_service.Names.{is_valid_name}
use chat_service.RoomManager.{
  RoomManager, create_room, join_room, leave_room, drop_member, drop_from_rooms, leave_all,
}

pub has-create_room :
    (m : RoomManager) (room r : Text)
    → has r (create_room room m).0.rooms ≡ ((text_eq room r && is_valid_name room) || has r m.rooms)
unfolding create_room
has-create_room m room r = ground (arith, find-insert room r [] m.rooms, text_eq_iff room r)

pub has-join_room :
    (m : RoomManager) (room u r : Text) → has r (join_room room u m).0.rooms ≡ has r m.rooms
unfolding join_room
has-join_room m room u r = elim (Option-cases (find room m.rooms)) [
  | inl e ↦ ground (arith, e)
  | inr (s, e) ↦ ground (arith, e, find-insert room r (insert u tt s) m.rooms, text_eq_iff room r)
]

pub has-leave_room :
    (m : RoomManager) (room u r : Text) → has r (leave_room room u m).0.rooms ≡ has r m.rooms
unfolding leave_room
has-leave_room m room u r = elim (Option-cases (find room m.rooms)) [
  | inl e ↦ ground (arith, e)
  | inr (s, e) ↦ ground (arith, e, find-insert room r (erase u s) m.rooms, text_eq_iff room r)
]

has-drop_member : (room u r : Text) (t : TextMap TextSet) → has r (drop_member room u t) ≡ has r t
unfolding drop_member
has-drop_member room u r t = elim (Option-cases (find room t)) [
  | inl e ↦ ground (arith, e)
  | inr (s, e) ↦ ground (arith, e, find-insert room r (erase u s) t, text_eq_iff room r)
]

has-drop_from_rooms :
    (s : TextSet) (u r : Text) (t : TextMap TextSet) → has r (drop_from_rooms s u t) ≡ has r t
unfolding drop_from_rooms
has-drop_from_rooms [] u r t = refl
has-drop_from_rooms ((room, _) ∷ s) u r t =
    has-drop_from_rooms s u r (drop_member room u t) ∙ has-drop_member room u r t

pub has-leave_all : (m : RoomManager) (u r : Text) → has r (leave_all u m).rooms ≡ has r m.rooms
unfolding leave_all
has-leave_all m u r = elim (Option-cases (find u m.user_rooms)) [
  | inl e ↦ ground (arith, e)
  | inr (s, e) ↦ ground (arith, e, has-drop_from_rooms s u r m.rooms)
]
