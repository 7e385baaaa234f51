-- ===== src/UserManager/Online.antt =====
-- Who is online after the operations of server/UserManager.cc.
use chat_service.Base.{
  Text, none, some, true, not, ◌&&◌, find, insert, has, codes, text_eq, text_eq_iff, find-insert,
  find-erase, ◌==◌, if◌then◌else◌, ◌≡◌, ◌↔◌, arith, ◌⊎◌, Option-cases, Bool-cases, inl, inr,
}
use chat_service.Names.{is_valid_name}
use chat_service.Status.{success, failure}
use chat_service.UserManager.{Connection, UserManager, login, logout, find_user}

-- A login succeeds exactly for a valid name that is not online, and then that name alone gets the
-- connection; otherwise nobody's connection changes.
pub login_lem :
    (m : UserManager) (u w : Text) (c : Connection)
    → (((login u c m).1 ≡ success) ↔ ((is_valid_name u ≡ true) × (find_user u m ≡ none)))
      × (find_user w (login u c m).0 ≡ (
          if text_eq u w && is_valid_name u && not (has u m.users) then some c else find_user w m))
unfolding login find_user
login_lem m u w c = (
  (λ h. (ground arith, ground arith), λ h. ground arith),
  ground (arith, find-insert u w c m.users),
)

-- A logout takes the name away exactly if the connection is the one that holds it, and never
-- another name.
pub logout_lem :
    (m : UserManager) (u w : Text) (c : Connection)
    → find_user w (logout u c m) ≡ (
        if text_eq u w
        then elim (find_user u m) [ none ↦ none | some d ↦ if d == c then none else some d ]
        else find_user w m)
unfolding logout find_user
logout_lem m u w c = elim (Option-cases (find u m.users)) [
  | inl e ↦ ground (arith, e, text_eq_iff u w)
  | inr (d, e) ↦ ground (arith, e, text_eq_iff u w, find-erase u w m.users)
]

-- The two kinds of answer to a login, with the manager that each leaves.
pub login_cases :
    (m : UserManager) (u : Text) (c : Connection)
    → ((e : Text) × (login u c m ≡ (m, failure e)))
      ⊎ ((is_valid_name u ≡ true)
          × (find u m.users ≡ none)
          × (login u c m ≡ (record { users = insert u c m.users }, success)))
unfolding login
login_cases m u c = elim (Bool-cases (is_valid_name u)) [
  | inr h ↦ inl (codes "invalid username", ground arith)
  | inl h ↦ elim (Option-cases (find u m.users)) [
    | inr (d, k) ↦ inl (codes "username is already online", ground arith)
    | inl k ↦ inr (h, k, ground arith)
  ]
]
