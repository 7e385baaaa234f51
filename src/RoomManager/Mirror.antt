-- ===== src/RoomManager/Mirror.antt =====
-- The two maps of server/RoomManager.cc say the same, and every operation is the change that it
-- names in the relation "is in the room".
use chat_service.Base.{
  Text, TextMap, TextSet, some, Bool, false, not, ◌&&◌, ◌||◌, List, [], ◌∷◌, find, erase, has,
  if◌then◌else◌, text_eq, text_eq_iff, ◌≡◌, refl, ◌∙◌, sym, arith, Option-cases, inl, inr,
  Bool-cases, find-insert_cases, find-insert, find-erase, codes, ap,
}
use chat_service.Names.{is_valid_name}
use chat_service.Status.{Status, success, failure}
use chat_service.RoomManager.{
  RoomManager, empty, no_members, create_room, join_room, forget_room, leave_room, leave_all,
}
use chat_service.RoomManager.Existence.{
  has-create_room, has-join_room, has-leave_room, has-leave_all,
}
use chat_service.RoomManager.Membership.{
  member, in_room, has-nil, no_members-insert, member-insert, member-erase, has-erase, member-add,
  member-forget, member-drop_from_rooms,
}

pub record IsMirrored (m : RoomManager) : Type 0 where
  pub same : (r u : Text) → member r u m.rooms ≡ member u r m.user_rooms
  pub lean : (u : Text) (s : TextSet) → find u m.user_rooms ≡ some s → no_members s ≡ false

pub data RoomOp : Type 0 where
  create : Text → RoomOp
  join leave : Text → Text → RoomOp
  leave_every : Text → RoomOp

unfoldable pub perform : RoomOp → RoomManager → RoomManager × Status
perform (create room) m = create_room room m
perform (join room u) m = join_room room u m
perform (leave room u) m = leave_room room u m
perform (leave_every u) m = (leave_all u m, success)

unfoldable pub run : RoomManager → List RoomOp → RoomManager
unfolding perform
run m [] = m
run m (op ∷ ops) = run (perform op m).0 ops

-- The specification: who is in `r` after the operation, from who was before.
unfoldable pub expected_member : RoomOp → RoomManager → Text → Text → Bool
expected_member (create room) m r w = in_room r w m
expected_member (join room u) m r w =
    (has room m.rooms && text_eq room r && text_eq u w) || in_room r w m
expected_member (leave room u) m r w = not (text_eq room r && text_eq u w) && in_room r w m
expected_member (leave_every u) m r w = not (text_eq u w) && in_room r w m

-- The specification: whether there is a room `r` after the operation.
unfoldable pub expected_room : RoomOp → RoomManager → Text → Bool
expected_room (create room) m r = (text_eq room r && is_valid_name room) || has r m.rooms
expected_room (join room u) m r = has r m.rooms
expected_room (leave room u) m r = has r m.rooms
expected_room (leave_every u) m r = has r m.rooms

-- The specification of the answers.
unfoldable pub expected_status : RoomOp → RoomManager → Status
expected_status (create room) m =
    if not (is_valid_name room)
    then failure (codes "invalid room name")
    else if has room m.rooms
    then failure (codes "room already exists")
    else success
expected_status (join room u) m =
    if has room m.rooms then success else failure (codes "room does not exist")
expected_status (leave room u) m =
    if not (has room m.rooms)
    then failure (codes "room does not exist")
    else if not (in_room room u m)
    then failure (codes "user is not in room")
    else success
expected_status (leave_every u) m = success

create-member :
    (m : RoomManager) (room r w : Text) → in_room r w (create_room room m).0 ≡ in_room r w m
unfolding create_room
create-member m room r w = elim (Option-cases (find room m.rooms)) [
  | inl e ↦ ground (arith, e, member-insert room r w [] m.rooms, has-nil w, text_eq_iff room r)
  | inr (s, e) ↦ ground (arith, e)
]

join-member :
    (m : RoomManager) (room u r w : Text)
    → in_room r w (join_room room u m).0
      ≡ ((has room m.rooms && text_eq room r && text_eq u w) || in_room r w m)
unfolding join_room
join-member m room u r w = ground (arith, member-add room u r w m.rooms)

leave-member :
    (m : RoomManager) (room u r w : Text)
    → in_room r w (leave_room room u m).0 ≡ (not (text_eq room r && text_eq u w) && in_room r w m)
unfolding leave_room
leave-member m room u r w = elim (Option-cases (find room m.rooms)) [
  | inl e ↦ ground (arith, e, has-nil w, text_eq_iff room r)
  | inr (s, e) ↦ ground (
    arith,
    e,
    member-insert room r w (erase u s) m.rooms,
    has-erase u w s,
    text_eq_iff room r,
    text_eq_iff u w,
  )
]

leave_all-member :
    (m : RoomManager) (v : IsMirrored m) (u r w : Text)
    → in_room r w (leave_all u m) ≡ (not (text_eq u w) && in_room r w m)
unfolding leave_all
leave_all-member m v u r w = elim (Option-cases (find u m.user_rooms)) [
  | inl e ↦ ground (arith, e, has-nil r, v.same r u, text_eq_iff u w)
  | inr (s, e) ↦
      ground (arith, e, member-drop_from_rooms s u r w m.rooms, v.same r u, text_eq_iff u w)
]

-- On mirrored maps, after every operation each user is in exactly the rooms that the specification
-- says, exactly the specified rooms exist, and the answer is the specified one: a room that is
-- created with a valid name exists from then on and has no member if it is new, a join adds its user
-- to an existing room, a leave takes one member away, leaving every room takes its user out of all,
-- and no room ever goes.
pub perform-expected :
    (m : RoomManager) (v : IsMirrored m) (op : RoomOp) (r w : Text)
    → (in_room r w (perform op m).0 ≡ expected_member op m r w)
      × (has r (perform op m).0.rooms ≡ expected_room op m r)
      × ((perform op m).1 ≡ expected_status op m)
unfolding perform expected_member expected_room expected_status
perform-expected m v (create room) r w =
    (create-member m room r w, has-create_room m room r, unfold create_room in ground arith)
perform-expected m v (join room u) r w =
    (join-member m room u r w, has-join_room m room u r, unfold join_room in ground arith)
perform-expected m v (leave room u) r w = (
  leave-member m room u r w,
  has-leave_room m room u r,
  unfold leave_room in ground (arith, has-nil u),
)
perform-expected m v (leave_every u) r w = (leave_all-member m v u r w, has-leave_all m u r, refl)

create-user_rooms :
    (m : RoomManager) (room : Text) → (create_room room m).0.user_rooms ≡ m.user_rooms
unfolding create_room
create-user_rooms m room = ground arith

create-IsMirrored :
    (m : RoomManager) (room : Text) → IsMirrored m → IsMirrored (create_room room m).0
create-IsMirrored m room v = record {
  same = λ r u. create-member m room r u ∙ v.same r u ∙ rw (create-user_rooms m room);
  lean = λ u s h. v.lean u s (rw (create-user_rooms m room) at h);
}

join-IsMirrored :
    (m : RoomManager) (room u : Text) → IsMirrored m → IsMirrored (join_room room u m).0
unfolding join_room
join-IsMirrored m room u v = elim (Option-cases (find room m.rooms)) [
  | inl e ↦ rw (e, join_room) v
  | inr (members, e) ↦
      rw (e, join_room)
        (record {
          same = λ r w. ground (
            arith,
            e,
            member-add room u r w m.rooms,
            member-add u room w r m.user_rooms,
            v.same r w,
          );
          lean = λ w s h. elim (find-insert_cases u w _ s m.user_rooms h) [
            | inl (k, q) ↦ rw (← q) (no_members-insert room _)
            | inr (ne, old) ↦ v.lean w s old
          ];
        })
]

forget-lean :
    (room u : Text) (t : TextMap TextSet)
    → ((w : Text) (s : TextSet) → find w t ≡ some s → no_members s ≡ false)
    → (w : Text) (s : TextSet) → find w (forget_room room u t) ≡ some s
    → no_members s ≡ false
unfolding forget_room
forget-lean room u t lean w s h = elim (Option-cases (find u t)) [
  | inl e ↦ ground (arith, e, lean w s)
  | inr (old, e) ↦
      ground
        (arith, e, lean w s, find-insert u w (erase room old) t, find-erase u w t, text_eq_iff u w)
]

leave-IsMirrored :
    (m : RoomManager) (room u : Text) → IsMirrored m → IsMirrored (leave_room room u m).0
unfolding leave_room
leave-IsMirrored m room u v = elim (Option-cases (find room m.rooms)) [
  | inl e ↦ rw (e, leave_room) v
  | inr (members, e) ↦ elim (Bool-cases (has u members)) [
    | inr absent ↦ rw (e, leave_room, absent) v
    | inl present ↦
        rw (e, leave_room, present)
          (record {
            same = λ r w. ground (
              arith,
              e,
              present,
              leave-member m room u r w,
              member-forget room u w r m.user_rooms,
              v.same r w,
              member-insert room r w (erase u members) m.rooms,
              has-erase u w members,
              text_eq_iff room r,
              text_eq_iff u w,
            );
            lean = forget-lean room u m.user_rooms v.lean;
          })
  ]
]

leave_all-user_rooms :
    (m : RoomManager) (u w r : Text)
    → member w r (leave_all u m).user_rooms ≡ (not (text_eq u w) && member w r m.user_rooms)
unfolding leave_all
leave_all-user_rooms m u w r = elim (Option-cases (find u m.user_rooms)) [
  | inl e ↦ ground (arith, e, has-nil r, text_eq_iff u w)
  | inr (s, e) ↦ ground (arith, e, member-erase u w r m.user_rooms)
]

leave_all-lean :
    (m : RoomManager) (v : IsMirrored m) (u w : Text) (s : TextSet)
    → find w (leave_all u m).user_rooms ≡ some s
    → no_members s ≡ false
unfolding leave_all
leave_all-lean m v u w s h = ground (arith, v.lean w s, find-erase u w m.user_rooms)

pub perform-IsMirrored :
    (m : RoomManager) (op : RoomOp) → IsMirrored m → IsMirrored (perform op m).0
unfolding perform
perform-IsMirrored m (create room) v = create-IsMirrored m room v
perform-IsMirrored m (join room u) v = join-IsMirrored m room u v
perform-IsMirrored m (leave room u) v = leave-IsMirrored m room u v
perform-IsMirrored m (leave_every u) v = record {
  same = λ r w.
      leave_all-member m v u r w
      ∙ ap (λ b. not (text_eq u w) && b) (v.same r w)
      ∙ sym (leave_all-user_rooms m u w r);
  lean = leave_all-lean m v u;
}

run_from-IsMirrored : (m : RoomManager) (ops : List RoomOp) → IsMirrored m → IsMirrored (run m ops)
unfolding run
run_from-IsMirrored m [] v = v
run_from-IsMirrored m (op ∷ ops) v =
    run_from-IsMirrored (perform op m).0 ops (perform-IsMirrored m op v)

pub empty-IsMirrored : IsMirrored empty
unfolding find
empty-IsMirrored = record { same = λ r u. refl; lean = λ u s h. cc }

-- After any operations on the empty manager a user is in the member set of a room exactly if the
-- room is in the user's own set, and no user keeps an entry with no room.
pub run-IsMirrored : (ops : List RoomOp) → IsMirrored (run empty ops)
run-IsMirrored ops = run_from-IsMirrored empty ops empty-IsMirrored
