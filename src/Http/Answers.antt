-- ===== src/Http/Answers.antt =====
-- What the handlers answer: a status and a JSON body.
use happy_server_lite.Base.{ℕ, GoString, codes, true, Option, none, some, List, [], ◌∷◌}
use happy_server_lite.Json.{Json, obj}
use happy_server_lite.Store.State.{
  Store, StoreError, missing_user_id, missing_tag, missing_machine_id,
  machine_belongs_to_another_user, session_not_found, missing_artifact_id, missing_artifact_fields,
  artifact_not_found,
}
use happy_server_lite.Middleware.Authentication.{user_id_from_context}

pub record Answer : Type 0 where
  pub status : ℕ
  pub body : Json

abbrev pub answer : ℕ → List (GoString × Json) → Answer
answer status body = record { status = status; body = obj body }

-- `gin.H{"error": ...}`
abbrev pub failed : ℕ → GoString → Answer
failed status message = answer status ((codes "error", Json.string message) ∷ [])

abbrev pub ok_status : ℕ
ok_status = 200

abbrev pub bad_request : ℕ
bad_request = 400

abbrev pub unauthorized : ℕ
unauthorized = 401

abbrev pub forbidden : ℕ
forbidden = 403

abbrev pub not_found : ℕ
not_found = 404

abbrev pub conflict : ℕ
conflict = 409

abbrev pub too_many_requests : ℕ
too_many_requests = 429

abbrev pub internal_error : ℕ
internal_error = 500

abbrev pub no_user : Answer
no_user = failed unauthorized (codes "Invalid authentication token")

abbrev pub invalid_request : Answer
invalid_request = failed bad_request (codes "Invalid request")

abbrev pub succeeded : Answer
succeeded = answer ok_status ((codes "success", Json.bool true) ∷ [])

-- `err.Error()` of the store's errors on artifacts, machines and sessions
abbrev pub error_text : StoreError → GoString
error_text missing_user_id = codes "missing user id"
error_text missing_tag = codes "missing tag"
error_text missing_machine_id = codes "missing machine id"
error_text machine_belongs_to_another_user = codes "machine belongs to another user"
error_text session_not_found = codes "session not found"
error_text missing_artifact_id = codes "missing artifact id"
error_text missing_artifact_fields = codes "missing artifact fields"
error_text artifact_not_found = codes "artifact not found"

abbrev pub for_user : Store → Option GoString → (GoString → Store × Answer) → Store × Answer
for_user s none f = (s, no_user)
for_user s (some user_id) f = f user_id

-- The start of every handler behind the authentication.
abbrev pub with_user : Store → Option GoString → (GoString → Store × Answer) → Store × Answer
with_user s user f = for_user s (user_id_from_context user) f

-- `c.ShouldBindJSON(&body)`, and what follows
abbrev pub with_body {ℓ} : {B : Type ℓ} → Store → Option B → (B → Store × Answer) → Store × Answer
with_body s none f = (s, invalid_request)
with_body s (some body) f = f body
