-- ===== src/Protocol.antt =====
-- The responses and small helpers of common/Protocol.cc.
use chat_service.Base.{Text, List, [], ◌∷◌, ◌++◌, none, some, find, insert, codes}
use chat_service.Json.{JsonObject}

-- The elements behind the first, each with its comma.
unfoldable pub join_rest : List Text → Text
join_rest [] = []
join_rest (value ∷ values) = b',' ∷ (value ++ join_rest values)

unfoldable pub join_list : List Text → Text
unfolding join_rest
join_list [] = []
join_list (value ∷ values) = value ++ join_rest values

unfoldable pub make_ok_response : Text → JsonObject
make_ok_response message = insert (codes "message") message (insert (codes "type") (codes "ok") [])

unfoldable pub make_error_response : Text → JsonObject
make_error_response message =
    insert (codes "message") message (insert (codes "type") (codes "error") [])

-- `fieldOrEmpty` of server/ChatSession.cc and server/ChatServer.cc
unfoldable pub field_or_empty : JsonObject → Text → Text
field_or_empty object key = elim (find key object) [ none ↦ [] | some value ↦ value ]
