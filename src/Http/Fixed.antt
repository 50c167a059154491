-- ===== src/Http/Fixed.antt =====
-- The handlers of internal/handler that neither read nor change the store: feed.go, friends.go,
-- push_tokens.go, user.go and version.go. The error of a body is not looked at, so a handler takes the
-- field that the decoding has left in it.
use happy_server_lite.Base.{GoString, codes, is_empty, false, [], ◌∷◌, if◌then◌else◌}
use happy_server_lite.Json.{Json, obj, arr}
use happy_server_lite.Http.Answers.{
  Answer, answer, failed, ok_status, bad_request, not_found, invalid_request, succeeded,
}

abbrev pub feed : Answer
feed = answer ok_status ((codes "items", arr []) ∷ (codes "hasMore", Json.bool false) ∷ [])

abbrev pub friends : Answer
friends = answer ok_status ((codes "friends", arr []) ∷ [])

abbrev dummy_user_profile : GoString → GoString → Json
dummy_user_profile id status = obj (
    (codes "id", Json.string id)
    ∷ (codes "firstName", Json.string (codes "User"))
    ∷ (codes "lastName", Json.null)
    ∷ (codes "avatar", Json.null)
    ∷ (codes "username", Json.string id)
    ∷ (codes "bio", Json.null)
    ∷ (codes "status", Json.string status)
    ∷ [])

unfoldable pub add_friend : GoString → Answer
add_friend uid =
    if is_empty uid
    then invalid_request
    else answer ok_status ((codes "user", dummy_user_profile uid (codes "requested")) ∷ [])

unfoldable pub remove_friend : GoString → Answer
remove_friend uid =
    if is_empty uid
    then invalid_request
    else answer ok_status ((codes "user", dummy_user_profile uid (codes "none")) ∷ [])

abbrev pub push_tokens : Answer
push_tokens = answer ok_status ((codes "tokens", arr []) ∷ [])

unfoldable pub register_push_token : GoString → Answer
register_push_token token =
    if is_empty token
    then answer bad_request ((codes "success", Json.bool false) ∷ [])
    else succeeded

abbrev pub search_users : Answer
search_users = answer ok_status ((codes "users", arr []) ∷ [])

abbrev pub get_user : Answer
get_user = failed not_found (codes "User not found")

abbrev pub check_version : Answer
check_version = answer ok_status ((codes "update_required", Json.bool false) ∷ [])
