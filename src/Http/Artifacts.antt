-- ===== src/Http/Artifacts.antt =====
-- internal/handler/artifact.go
use happy_server_lite.Base.{
  ℕ, GoString, codes, is_empty, Bool, true, false, not, Option, none, some, List, [], ◌∷◌, ◌++◌,
  map, if◌then◌else◌,
}
use happy_server_lite.Json.{Json, obj, arr}
use happy_server_lite.Model.{Artifact}
use happy_server_lite.Store.State.{Store, Result, ok, err}
use happy_server_lite.Store.Artifacts.{
  ArtifactRequest, ArtifactUpdate, ArtifactUpdateResult, list_artifacts, get_artifact,
  create_artifact, update_artifact, delete_artifact,
}
use happy_server_lite.Http.Answers.{
  Answer, answer, failed, ok_status, bad_request, not_found, conflict, succeeded, error_text,
  with_user, with_body,
}

pub record CreateArtifactBody : Type 0 where
  pub id : GoString
  pub header : GoString
  pub body : GoString
  pub data_encryption_key : GoString

pub record UpdateArtifactBody : Type 0 where
  pub header : Option GoString
  pub expected_header_version : Option ℕ
  pub body : Option GoString
  pub expected_body_version : Option ℕ

abbrev summary_json : Artifact → Json
summary_json a = obj (
    (codes "id", Json.string a.id)
    ∷ (codes "header", Json.string a.header)
    ∷ (codes "headerVersion", Json.number a.header_version)
    ∷ (codes "dataEncryptionKey", Json.string a.data_encryption_key)
    ∷ (codes "seq", Json.number a.seq)
    ∷ (codes "createdAt", Json.number a.created_at)
    ∷ (codes "updatedAt", Json.number a.updated_at)
    ∷ [])

abbrev artifact_answer : Artifact → Answer
artifact_answer a = answer ok_status (
    (codes "id", Json.string a.id)
    ∷ (codes "header", Json.string a.header)
    ∷ (codes "headerVersion", Json.number a.header_version)
    ∷ (codes "body", Json.string a.body)
    ∷ (codes "bodyVersion", Json.number a.body_version)
    ∷ (codes "dataEncryptionKey", Json.string a.data_encryption_key)
    ∷ (codes "seq", Json.number a.seq)
    ∷ (codes "createdAt", Json.number a.created_at)
    ∷ (codes "updatedAt", Json.number a.updated_at)
    ∷ [])

abbrev invalid_id : Answer
invalid_id = failed bad_request (codes "Invalid artifact id")

abbrev missing_artifact : Answer
missing_artifact = failed not_found (codes "Artifact not found")

unfoldable pub list : Store → Option GoString → Store × Answer
list s user = with_user s user (λ user_id.
    (s, record { status = ok_status; body = arr (map summary_json (list_artifacts s user_id)) }))

abbrev found_answer : Option Artifact → Answer
found_answer none = missing_artifact
found_answer (some a) = artifact_answer a

unfoldable pub get : Store → Option GoString → GoString → Store × Answer
get s user artifact_id = with_user s user (λ user_id.
    if is_empty artifact_id
    then (s, invalid_id)
    else (s, found_answer (get_artifact s user_id artifact_id)))

abbrev pub created_answer : Result (Artifact × Bool) → Answer
created_answer (err e) = failed bad_request (error_text e)
created_answer (ok (a, created)) =
    if not created then failed conflict (codes "Artifact already exists") else artifact_answer a

abbrev pub artifact_request : GoString → CreateArtifactBody → ArtifactRequest
artifact_request user_id b = record {
  user_id = user_id;
  artifact_id = b.id;
  header = b.header;
  body = b.body;
  data_encryption_key = b.data_encryption_key;
}

unfoldable pub create : Store → Option GoString → Option CreateArtifactBody → ℕ → Store × Answer
create s user decoded now = with_user s user (λ user_id. with_body s decoded (λ b.
    let (s', result) = create_artifact s (artifact_request user_id b) now in
    (s', created_answer result)))

-- `if p != nil { resp[key] = *p }`
abbrev number_if : GoString → Option ℕ → List (GoString × Json)
number_if key none = []
number_if key (some n) = (key, Json.number n) ∷ []

abbrev string_if : GoString → Option GoString → List (GoString × Json)
string_if key none = []
string_if key (some v) = (key, Json.string v) ∷ []

abbrev updated_answer : Result ArtifactUpdateResult → Answer
updated_answer (err e) = missing_artifact
updated_answer (ok res) =
    if res.success
    then answer ok_status (
        (codes "success", Json.bool true)
        ∷ (number_if (codes "headerVersion") res.header_version
            ++ number_if (codes "bodyVersion") res.body_version))
    else answer ok_status (
        (codes "success", Json.bool false)
        ∷ (codes "error", Json.string (codes "version-mismatch"))
        ∷ (number_if (codes "currentHeaderVersion") res.current_header_version
            ++ (number_if (codes "currentBodyVersion") res.current_body_version
                ++ (string_if (codes "currentHeader") res.current_header
                    ++ string_if (codes "currentBody") res.current_body))))

abbrev pub artifact_update : GoString → GoString → UpdateArtifactBody → ArtifactUpdate
artifact_update user_id artifact_id b = record {
  user_id = user_id;
  artifact_id = artifact_id;
  header = b.header;
  expected_header_version = b.expected_header_version;
  body = b.body;
  expected_body_version = b.expected_body_version;
}

unfoldable pub update :
    Store → Option GoString → GoString → Option UpdateArtifactBody → ℕ → Store × Answer
update s user artifact_id decoded now = with_user s user (λ user_id.
    let updated = with_body s decoded (λ b.
      let (s', result) = update_artifact s (artifact_update user_id artifact_id b) now in
      (s', updated_answer result)) in
    if is_empty artifact_id then (s, invalid_id) else updated)

unfoldable pub delete : Store → Option GoString → GoString → Store × Answer
delete s user artifact_id = with_user s user (λ user_id.
    let (s', deleted) = delete_artifact s user_id artifact_id in
    if is_empty artifact_id
    then (s, invalid_id)
    else if not deleted
    then (s', missing_artifact)
    else (s', succeeded))
