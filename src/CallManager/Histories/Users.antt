-- ===== src/CallManager/Histories/Users.antt =====
-- Which users the operations of server/CallManager.cc leave in a call.
use chat_service.Base.{
  Text, true, false, find, has, insert, erase, text_eq_iff, find-insert, find-erase, ◌≡◌, ◌⊎◌, inl,
  inr, arith, Option-cases,
}
use chat_service.CallManager.{CallManager, remove_user}
use chat_service.CallManager.Invariant.{IsConsistent, pending, caller_entry, callee_entry, started}
use chat_service.CallManager.Guards.{active}
use chat_service.CallManager.Histories.Steps.{Shift, none_made, answers, ends}
use chat_service.CallManager.Lifecycle.Effects.{remove_user-end, remove_user-idle}

-- A shift puts nobody into a call.
pub Shift-has :
    {m n : CallManager} (v : IsConsistent m) (u : Text)
    → Shift m n
    → has u n.users ≡ true
    → has u m.users ≡ true
Shift-has v u none_made h = h
Shift-has {m} v u (answers caller callee id k) h = ground (
  arith,
  v.callers id (pending caller callee) k,
  v.callees id (pending caller callee) k,
  find-insert caller u (caller_entry id (active caller callee))
      (insert callee (callee_entry id (active caller callee)) m.users),
  find-insert callee u (callee_entry id (active caller callee)) m.users,
  text_eq_iff caller u,
  text_eq_iff callee u,
)
Shift-has {m} v u (ends id c k) h =
    ground (arith, find-erase c.callee u (erase c.caller m.users), find-erase c.caller u m.users)

pub started-has :
    (m : CallManager) (caller callee id u : Text)
    → has u (started m caller callee id).users ≡ true
    → (has u m.users ≡ true) ⊎ (u ≡ caller) ⊎ (u ≡ callee)
started-has m caller callee id u h = ground (
  arith,
  find-insert callee u (callee_entry id (pending caller callee))
      (insert caller (caller_entry id (pending caller callee)) m.users),
  find-insert caller u (caller_entry id (pending caller callee)) m.users,
  text_eq_iff caller u,
  text_eq_iff callee u,
)

-- A removed user is in no call.
pub remove_user-gone :
    (m : CallManager) (v : IsConsistent m) (u : Text) → has u (remove_user u m).0.users ≡ false
remove_user-gone m v u = elim (Option-cases (find u m.users)) [
  | inl e ↦ ground (arith, remove_user-idle m u e)
  | inr (s, e) ↦
      let (c, found, side) = v.ends u s e in
      ground (
        arith,
        remove_user-end m u s c e found,
        find-erase c.callee u (erase c.caller m.users),
        find-erase c.caller u m.users,
        text_eq_iff c.callee u,
        text_eq_iff c.caller u,
      )
]
