-- ===== src/RoomManager/Membership.antt =====
-- Who is in which room after each operation of server/RoomManager.cc.
use chat_service.Base.{
  Text, TextMap, TextSet, Bool, true, false, not, ◌&&◌, ◌||◌, [], ◌∷◌, find, insert, erase, has,
  is_some, if◌then◌else◌, text_eq, text_eq_iff, find-insert, find-erase, ◌≡◌, refl, arith,
  Option-cases, inl, inr,
}
use chat_service.RoomManager.{
  RoomManager, set_or_empty, no_members, forget_room, drop_member, drop_from_rooms,
}

-- `u` is in the set that `t` holds under `r`.
abbrev pub member : Text → Text → TextMap TextSet → Bool
member r u t = has u (set_or_empty (find r t))

abbrev pub in_room : Text → Text → RoomManager → Bool
in_room r u m = member r u m.rooms

pub has-insert : (k j : Text) (s : TextSet) → has j (insert k tt s) ≡ (text_eq k j || has j s)
has-insert k j s = rw find-insert (ground arith)

pub has-erase : (k j : Text) (s : TextSet) → has j (erase k s) ≡ (not (text_eq k j) && has j s)
has-erase k j s = rw find-erase (ground arith)

pub has-nil : (w : Text) → is_some (find {V = Unit {0}} w []) ≡ false
unfolding find
has-nil w = refl

pub no_members-has : (s : TextSet) (w : Text) → no_members s ≡ true → has w s ≡ false
unfolding no_members find
no_members-has [] w h = refl
no_members-has (x ∷ s) w h = cc

pub no_members-insert : (k : Text) (s : TextSet) → no_members (insert k tt s) ≡ false
unfolding no_members insert
no_members-insert k [] = refl
no_members-insert k ((j, x) ∷ s) = ground arith

pub member-insert :
    (r q w : Text) (s : TextSet) (t : TextMap TextSet)
    → member q w (insert r s t) ≡ (if text_eq r q then has w s else member q w t)
member-insert r q w s t = rw find-insert (ground arith)

pub member-erase :
    (r q w : Text) (t : TextMap TextSet)
    → member q w (erase r t) ≡ (not (text_eq r q) && member q w t)
member-erase r q w t = rw find-erase (ground (arith, has-nil w))

-- Adding and taking away one member.
pub member-add :
    (r u q w : Text) (t : TextMap TextSet)
    → member q w (insert r (insert u tt (set_or_empty (find r t))) t)
      ≡ ((text_eq r q && text_eq u w) || member q w t)
member-add r u q w t = ground (
  arith,
  member-insert r q w (insert u tt (set_or_empty (find r t))) t,
  has-insert u w (set_or_empty (find r t)),
  text_eq_iff r q,
)

pub member-drop :
    (r u q w : Text) (t : TextMap TextSet)
    → member q w (drop_member r u t) ≡ (not (text_eq r q && text_eq u w) && member q w t)
unfolding drop_member
member-drop r u q w t = elim (Option-cases (find r t)) [
  | inl e ↦ ground (arith, e, has-nil w, text_eq_iff r q)
  | inr (s, e) ↦
      ground (arith, e, member-insert r q w (erase u s) t, has-erase u w s, text_eq_iff r q)
]

pub member-forget :
    (r u q w : Text) (t : TextMap TextSet)
    → member q w (forget_room r u t) ≡ (not (text_eq u q && text_eq r w) && member q w t)
unfolding forget_room
member-forget r u q w t = elim (Option-cases (find u t)) [
  | inl e ↦ ground (arith, e, has-nil w, text_eq_iff u q)
  | inr (s, e) ↦ ground (
    arith,
    e,
    member-insert u q w (erase r s) t,
    member-erase u q w t,
    has-erase r w s,
    no_members-has (erase r s) w,
    text_eq_iff u q,
  )
]

pub member-drop_from_rooms :
    (s : TextSet) (u q w : Text) (t : TextMap TextSet)
    → member q w (drop_from_rooms s u t) ≡ (not (has q s && text_eq u w) && member q w t)
unfolding drop_from_rooms find
member-drop_from_rooms [] u q w t = refl
member-drop_from_rooms ((r, x) ∷ s) u q w t =
    ground (arith, member-drop_from_rooms s u q w (drop_member r u t), member-drop r u q w t)
