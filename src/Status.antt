-- ===== src/Status.antt =====
-- What a manager's `bool f(…, std::string* error)` hands back besides the new state.
use chat_service.Base.{Text}

-- `success` is `true`; `failure e` is `false` with `*error = e`.
pub data Status : Type 0 where
  success : Status
  failure : Text → Status
