-- ===== src/Server/Invariant/Serving.antt =====
-- The sessions, the user map, the rooms and the calls of server/ChatServer.h belong together: the
-- invariant, and the changes of single components that keep it.
use chat_service.Base.{
  Text, true, false, Option, none, some, [], find, has, insert, erase, is_empty, text_eq,
  text_eq_iff, find-insert, find-erase, ◌==◌, ==_iff, if◌then◌else◌, ◌≡◌, ◌≢◌, inl, inr, sym, ◌∙◌,
  arith,
}
use chat_service.CallManager.{CallManager, remove_user}
use chat_service.CallManager.Histories.Steps.{Shift, Shift-IsConsistent, remove-Shift}
use chat_service.CallManager.Histories.Users.{Shift-has, started-has, remove_user-gone}
use chat_service.CallManager.Invariant.{IsConsistent, started, started-IsConsistent}
use chat_service.RoomManager
use chat_service.RoomManager.Membership.{in_room}
use chat_service.RoomManager.Mirror.{
  IsMirrored, RoomOp, create, join, leave, leave_every, perform, expected_member, perform-expected,
  perform-IsMirrored,
}
use chat_service.RoomManager.{RoomManager, leave_all}
use chat_service.Server.State.{ChatServer, name_or_empty, update}
use chat_service.UserManager
use chat_service.UserManager.{UserManager, Connection}

-- The invariant of the four components.
pub record Serving (users : UserManager) (rooms : RoomManager) (calls : CallManager)
    (sessions : Connection → Option Text) : Type 0 where
  pub calls_agree : IsConsistent calls
  pub rooms_agree : IsMirrored rooms
  -- A name is online with the connection whose session holds it.
  pub online :
      (u : Text) (c : Connection)
      → find u users.users ≡ some c
      → (sessions c ≡ some u) × (is_empty u ≡ false)
  -- A session that holds a name is the one that is online with it.
  pub logged_in :
      (c : Connection) (u : Text)
      → sessions c ≡ some u
      → is_empty u ≡ false
      → find u users.users ≡ some c
  pub callers_online : (u : Text) → has u calls.users ≡ true → has u users.users ≡ true
  pub members_online : (r u : Text) → in_room r u rooms ≡ true → has u users.users ≡ true

pub record IsServing {St : Type 0} (s : ChatServer St) : Type 0 where
  pub at : Serving s.users s.rooms s.calls s.sessions

module _ (users : UserManager) (rooms : RoomManager) (calls : CallManager)
    (sessions : Connection → Option Text) (v : Serving users rooms calls sessions) where
  -- The calls change and nobody new is in one.
  pub Shift-Serving : (n : CallManager) → Shift calls n → Serving users rooms n sessions
  Shift-Serving n h = record {
    calls_agree = Shift-IsConsistent v.calls_agree h;
    rooms_agree = v.rooms_agree;
    online = v.online;
    logged_in = v.logged_in;
    callers_online = λ u e. v.callers_online u (Shift-has v.calls_agree u h e);
    members_online = v.members_online;
  }

  -- A call begins between two users who are online.
  pub begin-Serving :
      (caller callee id : Text)
      → caller ≢ callee
      → find caller calls.users ≡ none
      → find callee calls.users ≡ none
      → find id calls.calls ≡ none
      → has caller users.users ≡ true
      → has callee users.users ≡ true
      → Serving users rooms (started calls caller callee id) sessions
  begin-Serving caller callee id ne h k l on_caller on_callee = record {
    calls_agree = started-IsConsistent calls v.calls_agree caller callee id ne h k l;
    rooms_agree = v.rooms_agree;
    online = v.online;
    logged_in = v.logged_in;
    callers_online = λ u e. elim (started-has calls caller callee id u e) [
      | inl old ↦ v.callers_online u old
      | inr (inl q) ↦ rw q on_caller
      | inr (inr q) ↦ rw q on_callee
    ];
    members_online = v.members_online;
  }

  -- A room operation that puts nobody but users who are online into a room.
  pub room-Serving :
      (op : RoomOp)
      → ((r u : Text) → expected_member op rooms r u ≡ true → has u users.users ≡ true)
      → Serving users (perform op rooms).0 calls sessions
  room-Serving op on = record {
    calls_agree = v.calls_agree;
    rooms_agree = perform-IsMirrored rooms op v.rooms_agree;
    online = v.online;
    logged_in = v.logged_in;
    callers_online = v.callers_online;
    members_online = λ r u e. on r u (sym ((perform-expected rooms v.rooms_agree op r u).0) ∙ e);
  }

  -- A new name gets the connection of a session that holds none.
  pub login-Serving :
      (c : Connection) (u : Text)
      → is_empty (name_or_empty (sessions c)) ≡ true
      → is_empty u ≡ false
      → find u users.users ≡ none
      → Serving (record { users = insert u c users.users }) rooms calls (update sessions c u)
  login-Serving c u out full free = record {
    calls_agree = v.calls_agree;
    rooms_agree = v.rooms_agree;
    online = λ w d h.
        ground (arith, find-insert u w c users.users, text_eq_iff u w, v.online w d, ==_iff c d);
    logged_in = λ d w h full'.
        ground (arith, find-insert u w c users.users, text_eq_iff u w, v.logged_in d w, ==_iff c d);
    callers_online = λ w h. ground (arith, find-insert u w c users.users, v.callers_online w);
    members_online = λ r w h. ground (arith, find-insert u w c users.users, v.members_online r w);
  }

logout-held :
    (m : UserManager) (u : Text) (c : Connection)
    → find u m.users ≡ some c
    → UserManager.logout u c m ≡ record { users = erase u m.users }
unfolding UserManager.logout
logout-held m u c h = ground (arith, ==_iff c c)

module _ (users : UserManager) (rooms : RoomManager) (calls : CallManager)
    (sessions : Connection → Option Text) (v : Serving users rooms calls sessions) where
  leave_every-Serving : (u : Text) → Serving users (leave_all u rooms) calls sessions
  leave_every-Serving u =
      unfold perform in
      room-Serving users rooms calls sessions v (leave_every u)
        λ r w e. v.members_online r w (unfold expected_member in ground arith)

  left_rooms : (u r w : Text) → in_room r w (leave_all u rooms) ≡ true → text_eq u w ≡ false
  left_rooms u r w h =
      let e = (perform-expected rooms v.rooms_agree (leave_every u) r w).0 in
      unfold perform expected_member in ground arith

  -- The user of a session leaves everything.
  pub logout-Serving :
      (c : Connection) (u : Text)
      → sessions c ≡ some u
      → is_empty u ≡ false
      → Serving
          (UserManager.logout u c users)
          (leave_all u rooms)
          (remove_user u calls).0
          (update sessions c [])
  unfolding is_empty
  logout-Serving c u here full =
      let held = v.logged_in c u here full in
      let w0 = leave_every-Serving u in
      let gone = remove_user-gone calls v.calls_agree u in
      let shift = remove-Shift calls v.calls_agree u in
      rw (logout-held users u c held) (record {
        calls_agree = Shift-IsConsistent v.calls_agree shift;
        rooms_agree = w0.rooms_agree;
        online = λ w d h.
            ground (arith, find-erase u w users.users, text_eq_iff u w, v.online w d, ==_iff c d);
        logged_in = λ d w h full'.
            ground
              (arith, find-erase u w users.users, text_eq_iff u w, v.logged_in d w, ==_iff c d);
        callers_online = λ w h. ground (
          arith,
          find-erase u w users.users,
          text_eq_iff u w,
          v.callers_online w (Shift-has v.calls_agree w shift h),
        );
        members_online = λ r w h.
            ground (arith, find-erase u w users.users, left_rooms u r w h, w0.members_online r w h);
      })

module _ (users : UserManager) (rooms : RoomManager) (calls : CallManager)
    (sessions : Connection → Option Text) (v : Serving users rooms calls sessions) where
  pub create-Serving :
      (room : Text) → Serving users (RoomManager.create_room room rooms).0 calls sessions
  create-Serving room =
      unfold perform in
      room-Serving users rooms calls sessions v (create room)
        λ r u h. v.members_online r u (unfold expected_member in h)

  pub join-Serving :
      (room u : Text)
      → has u users.users ≡ true
      → Serving users (RoomManager.join_room room u rooms).0 calls sessions
  join-Serving room u on =
      unfold perform in
      room-Serving users rooms calls sessions v (join room u)
        λ r w h. unfold expected_member in ground (arith, v.members_online r w, text_eq_iff u w)

  pub leave-Serving :
      (room u : Text) → Serving users (RoomManager.leave_room room u rooms).0 calls sessions
  leave-Serving room u =
      unfold perform in
      room-Serving users rooms calls sessions v (leave room u)
        λ r w h. unfold expected_member in ground (arith, v.members_online r w)

  -- A session that holds no name opens or goes.
  pub context-Serving :
      (c : Connection) (o : Option Text)
      → is_empty (name_or_empty (sessions c)) ≡ true
      → is_empty (name_or_empty o) ≡ true
      → Serving users rooms calls (λ d. if c == d then o else sessions d)
  context-Serving c o out out' = record {
    calls_agree = v.calls_agree;
    rooms_agree = v.rooms_agree;
    online = λ w d h. ground (arith, v.online w d, ==_iff c d);
    logged_in = λ d w h full. ground (arith, v.logged_in d w, ==_iff c d);
    callers_online = v.callers_online;
    members_online = v.members_online;
  }
