-- ===== src/Http/Sessions.antt =====
-- internal/handler/session.go
use happy_server_lite.Base.{
  ℕ, GoString, codes, is_empty, Bool, not, Option, none, some, List, [], ◌∷◌, map, if◌then◌else◌,
}
use happy_server_lite.Base.Strconv.{atoi}
use happy_server_lite.Json.{Json, obj, arr, optional}
use happy_server_lite.Model.{Session, SessionMessage}
use happy_server_lite.Store.State.{Store, StoreError, missing_user_id, Result, ok, err}
use happy_server_lite.Store.Sessions.{
  SessionRequest, get_or_create_session, list_sessions, delete_session,
}
use happy_server_lite.Store.Messages.{list_messages}
use happy_server_lite.Http.Answers.{
  Answer, answer, failed, ok_status, bad_request, not_found, internal_error, succeeded, error_text,
  with_user, with_body,
}

pub record CreateSessionBody : Type 0 where
  pub tag : GoString
  pub metadata : GoString
  pub agent_state : Option GoString
  pub data_encryption_key : Option GoString

abbrev session_json : Session → Json
session_json sess = obj (
    (codes "id", Json.string sess.id)
    ∷ (codes "tag", Json.string sess.tag)
    ∷ (codes "seq", Json.number sess.seq)
    ∷ (codes "createdAt", Json.number sess.created_at)
    ∷ (codes "updatedAt", Json.number sess.updated_at)
    ∷ (codes "metadata", Json.string sess.metadata)
    ∷ (codes "metadataVersion", Json.number sess.metadata_version)
    ∷ (codes "agentState", optional sess.agent_state)
    ∷ (codes "agentStateVersion", Json.number sess.agent_state_version)
    ∷ (codes "dataEncryptionKey", optional sess.data_encryption_key)
    ∷ (codes "active", Json.bool sess.active)
    ∷ (codes "activeAt", Json.number sess.active_at)
    ∷ (codes "lastMessage", Json.null)
    ∷ [])

-- The error on a missing user reads otherwise here than that on artifacts.
abbrev creation_error : StoreError → GoString
creation_error missing_user_id = codes "missing userID"
creation_error e = error_text e

abbrev pub created_answer : Result (Session × Bool) → Answer
created_answer (err e) = failed bad_request (creation_error e)
created_answer (ok (sess, created)) = answer ok_status ((codes "session", session_json sess) ∷ [])

abbrev pub session_request : GoString → CreateSessionBody → SessionRequest
session_request user_id body = record {
  user_id = user_id;
  tag = body.tag;
  metadata = body.metadata;
  agent_state = body.agent_state;
  data_encryption_key = body.data_encryption_key;
}

unfoldable pub get_or_create :
    Store → Option GoString → Option CreateSessionBody → GoString → ℕ → Store × Answer
get_or_create s user decoded new_id now = with_user s user (λ user_id. with_body s decoded (λ body.
    let (s', result) = get_or_create_session s (session_request user_id body) new_id now in
    (s', created_answer result)))

unfoldable pub list : Store → Option GoString → Store × Answer
list s user = with_user s user (λ user_id. (
  s,
  answer ok_status ((codes "sessions", arr (map session_json (list_sessions s user_id))) ∷ []),
))

unfoldable pub delete : Store → Option GoString → GoString → ℕ → Store × Answer
delete s user session_id now = with_user s user (λ user_id.
    let (s', deleted) = delete_session s user_id session_id now in
    if is_empty session_id
    then (s, failed bad_request (codes "Invalid session id"))
    else if not deleted
    then (s', failed not_found (codes "Session not found"))
    else (s', succeeded))

abbrev pub message_json : SessionMessage → Json
message_json m = obj (
    (codes "id", Json.string m.id)
    ∷ (codes "seq", Json.number m.seq)
    ∷ (codes "createdAt", Json.number m.created_at)
    ∷ (codes "updatedAt", Json.number m.updated_at)
    ∷ (
      codes "content",
      obj ((codes "t", Json.string (codes "encrypted")) ∷ (codes "c", Json.string m.content) ∷ []),
    )
    ∷ [])

-- `gin.Recovery` turns a panic into this answer, which has no body; `null` stands for that here.
abbrev recovered : Answer
recovered = record { status = internal_error; body = Json.null }

abbrev messages_answer : Option (Result (List SessionMessage)) → Answer
messages_answer none = recovered
messages_answer (some (err e)) = failed not_found (codes "Session not found")
messages_answer (some (ok msgs)) =
    answer ok_status ((codes "messages", arr (map message_json msgs)) ∷ [])

abbrev bad_cursor : Answer
bad_cursor = failed bad_request (codes "Invalid cursor format")

-- A query parameter with its default value; `strconv.ParseInt(raw, 10, 64)` is `Atoi` on 64 bits.
abbrev number_or : ℕ → GoString → Option ℕ
number_or default raw = if is_empty raw then some default else atoi raw

abbrev limited : (ℕ → ℕ → Answer) → ℕ → Option ℕ → Answer
limited f after none = bad_cursor
limited f after (some limit) = f after limit

abbrev windowed : (ℕ → ℕ → Answer) → Option ℕ → GoString → Answer
windowed f none limit = bad_cursor
windowed f (some after) limit = limited f after (number_or 100 limit)

unfoldable pub messages : Store → Option GoString → GoString → GoString → GoString → Store × Answer
messages s user session_id after limit = with_user s user (λ user_id.
    let listed : ℕ → ℕ → Answer =
      λ after limit. messages_answer (list_messages s user_id session_id after limit) in
    if is_empty session_id
    then (s, failed bad_request (codes "Invalid session id"))
    else (s, windowed listed (number_or 0 after) limit))
