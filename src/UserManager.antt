-- ===== src/UserManager.antt =====
-- server/UserManager.cc: the connections of the users who are online. Each method is one step under
-- the mutex. A `TcpConnectionPtr` is compared by identity alone, so it is the number of an object;
-- a null pointer is `none`.
pub mod Online
use chat_service.Base.{
  ℕ, Text, TextMap, Option, none, some, Bool, not, List, [], ◌∷◌, find, insert, erase, has, keys,
  codes, length, ◌==◌, if◌then◌else◌,
}
use chat_service.Names.{is_valid_name}
use chat_service.Status.{Status, success, failure}

abbrev pub Connection : Type 0
Connection = ℕ

pub record UserManager : Type 0 where
  pub users : TextMap Connection

abbrev pub empty : UserManager
empty = record { users = [] }

unfoldable pub login : Text → Connection → UserManager → UserManager × Status
login username connection m =
    if not (is_valid_name username)
    then (m, failure (codes "invalid username"))
    else if has username m.users
    then (m, failure (codes "username is already online"))
    else (record { users = insert username connection m.users }, success)

-- Only the connection that logged in can log the name out.
unfoldable pub logout : Text → Connection → UserManager → UserManager
logout username connection m = elim (find username m.users) [
  | none ↦ m
  | some c ↦ if c == connection then record { users = erase username m.users } else m
]

-- `UserManager::find`
unfoldable pub find_user : Text → UserManager → Option Connection
find_user username m = find username m.users

unfoldable pub find_many : List Text → UserManager → List Connection
find_many [] m = []
find_many (name ∷ names) m = elim (find name m.users) [
  | none ↦ find_many names m
  | some c ↦ c ∷ find_many names m
]

unfoldable pub online_count : UserManager → ℕ
online_count m = length m.users

unfoldable pub online_users : UserManager → List Text
online_users m = keys m.users
