-- ===== src/Http/Machines.antt =====
-- internal/handler/machine.go
use happy_server_lite.Base.{
  ℕ, GoString, codes, is_empty, Bool, false, Option, [], ◌∷◌, map, if◌then◌else◌,
}
use happy_server_lite.Json.{Json, obj, arr, optional}
use happy_server_lite.Model.{Machine}
use happy_server_lite.Store.State.{Store, Result, ok, err}
use happy_server_lite.Store.Machines.{MachineRequest, upsert_machine, list_machines}
use happy_server_lite.Http.Answers.{
  Answer, answer, failed, ok_status, forbidden, error_text, with_user, with_body,
}

pub record UpsertMachineBody : Type 0 where
  pub id : GoString
  pub tag : GoString
  pub metadata : GoString
  pub daemon_state : Option GoString
  pub data_encryption_key : Option GoString

abbrev machine_json : Machine → Json
machine_json m = obj (
    (codes "id", Json.string m.id)
    ∷ (codes "createdAt", Json.number m.created_at)
    ∷ (codes "updatedAt", Json.number m.updated_at)
    ∷ (codes "seq", Json.number 0)
    ∷ (codes "active", Json.bool false)
    ∷ (codes "activeAt", Json.number 0)
    ∷ (codes "metadata", Json.string m.metadata)
    ∷ (codes "metadataVersion", Json.number m.metadata_version)
    ∷ (codes "daemonState", optional m.daemon_state)
    ∷ (codes "daemonStateVersion", Json.number m.daemon_state_version)
    ∷ (codes "dataEncryptionKey", optional m.data_encryption_key)
    ∷ [])

abbrev upserted_answer : Result (Machine × Bool) → Answer
upserted_answer (err e) = failed forbidden (error_text e)
upserted_answer (ok (m, created)) = answer ok_status ((codes "machine", machine_json m) ∷ [])

abbrev pub machine_request : GoString → UpsertMachineBody → MachineRequest
machine_request user_id body = record {
  user_id = user_id;
  machine_id = if is_empty body.id then body.tag else body.id;
  metadata = body.metadata;
  daemon_state = body.daemon_state;
  data_encryption_key = body.data_encryption_key;
}

unfoldable pub upsert : Store → Option GoString → Option UpsertMachineBody → ℕ → Store × Answer
upsert s user decoded now = with_user s user (λ user_id. with_body s decoded (λ body.
    let (s', result, snapshot) = upsert_machine s (machine_request user_id body) now in
    (s', upserted_answer result)))

unfoldable pub list : Store → Option GoString → Store × Answer
list s user = with_user s user (λ user_id.
    (s, record { status = ok_status; body = arr (map machine_json (list_machines s user_id)) }))
