-- ===== src/Store/Artifacts.antt =====
-- internal/store/artifacts.go
pub mod Update
pub mod Listing
use happy_server_lite.Base.{
  ℕ, GoString, is_empty, ◌==◌, str_lt, Option, none, some, Bool, true, false, ◌&&◌, ◌||◌, not,
  lookup, insert, values, eqb, inc64, slt, same, if◌then◌else◌, List, ◌∷◌, ◌++◌, filter, sort_slice,
}
use happy_server_lite.Model.{Artifact}
use happy_server_lite.Store.State.{
  Store, Result, ok, err, missing_user_id, missing_artifact_id, missing_artifact_fields,
  artifact_not_found,
}

pub record ArtifactUpdateResult : Type 0 where
  pub success : Bool
  pub header_version : Option ℕ
  pub body_version : Option ℕ
  pub current_header_version : Option ℕ
  pub current_body_version : Option ℕ
  pub current_header : Option GoString
  pub current_body : Option GoString

-- `userID + "|" + artifactID`
unfoldable pub artifact_key : GoString → GoString → GoString
artifact_key user_id artifact_id = user_id ++ (b'|' ∷ artifact_id)

-- `a.UserID == userID && !a.Deleted`
unfoldable pub accessible : GoString → Artifact → Bool
accessible user_id a = a.user_id == user_id && not a.deleted

-- newest first, and by identifier where the times are equal
unfoldable pub before : Artifact → Artifact → Bool
before a b =
    if same a.updated_at b.updated_at then str_lt a.id b.id else slt b.updated_at a.updated_at

unfoldable pub list_artifacts : Store → GoString → List Artifact
list_artifacts s user_id =
    sort_slice before (filter (accessible user_id) (values s.artifacts_by_key))

unfoldable pub get_artifact : Store → GoString → GoString → Option Artifact
get_artifact s user_id artifact_id =
    elim (lookup (artifact_key user_id artifact_id) s.artifacts_by_key) [
      | none ↦ none
      | some a ↦ if accessible user_id a then some a else none
    ]

pub record ArtifactRequest : Type 0 where
  pub user_id : GoString
  pub artifact_id : GoString
  pub header : GoString
  pub body : GoString
  pub data_encryption_key : GoString

unfoldable pub add_artifact : Store → ArtifactRequest → ℕ → Store × Result (Artifact × Bool)
add_artifact s r now =
    let artifact_seq : ℕ = inc64 s.artifact_seq in
    let a : Artifact = record {
      id = r.artifact_id;
      user_id = r.user_id;
      header = r.header;
      header_version = 1;
      body = r.body;
      body_version = 1;
      data_encryption_key = r.data_encryption_key;
      seq = artifact_seq;
      created_at = now;
      updated_at = now;
      deleted = false;
    } in
    (
      record s {
        artifact_seq = artifact_seq;
        artifacts_by_key = insert (artifact_key r.user_id r.artifact_id) a s.artifacts_by_key;
      },
      ok (a, true),
    )

unfoldable pub create_artifact : Store → ArtifactRequest → ℕ → Store × Result (Artifact × Bool)
unfolding add_artifact
create_artifact s r now =
    if is_empty r.user_id
    then (s, err missing_user_id)
    else if is_empty r.artifact_id
    then (s, err missing_artifact_id)
    else if is_empty r.header || is_empty r.body || is_empty r.data_encryption_key
    then (s, err missing_artifact_fields)
    else elim (lookup (artifact_key r.user_id r.artifact_id) s.artifacts_by_key) [
      | none ↦ add_artifact s r now
      | some existing ↦
          if not existing.deleted then (s, ok (existing, false)) else add_artifact s r now
    ]

-- `expected == nil || *expected != current`
unfoldable pub version_differs : Option ℕ → ℕ → Bool
version_differs none current = true
version_differs (some expected) current = not (eqb expected current)

-- The reply to a version mismatch reads the local copy `a`, as it stands then.
abbrev pub mismatch : Artifact → ArtifactUpdateResult
mismatch a = record {
  success = false;
  header_version = none;
  body_version = none;
  current_header_version = some a.header_version;
  current_body_version = some a.body_version;
  current_header = some a.header;
  current_body = some a.body;
}

-- The block `if header != nil`: the changed copy, or the reply that ends the update.
pub data Checked : Type 0 where
  go_on : Artifact → Checked
  reply : ArtifactUpdateResult → Checked

unfoldable pub check_header : Option GoString → Option ℕ → Artifact → Checked
unfolding version_differs
check_header none expected a = go_on a
check_header (some header) expected a =
    if version_differs expected a.header_version
    then reply (mismatch a)
    else go_on (record a { header = header; header_version = inc64 a.header_version })

unfoldable pub check_body : Option GoString → Option ℕ → Artifact → Checked
unfolding version_differs
check_body none expected a = go_on a
check_body (some body) expected a =
    if version_differs expected a.body_version
    then reply (mismatch a)
    else go_on (record a { body = body; body_version = inc64 a.body_version })

abbrev pub version_if : Option GoString → ℕ → Option ℕ
version_if none v = none
version_if (some _) v = some v

pub record ArtifactUpdate : Type 0 where
  pub user_id : GoString
  pub artifact_id : GoString
  pub header : Option GoString
  pub expected_header_version : Option ℕ
  pub body : Option GoString
  pub expected_body_version : Option ℕ

-- the end of `UpdateArtifact`, once both checks have passed
unfoldable pub commit_artifact :
    Store → ArtifactUpdate → Artifact → ℕ → Store × Result ArtifactUpdateResult
commit_artifact s u a now =
    let artifact_seq : ℕ = inc64 s.artifact_seq in
    (
      record s {
        artifact_seq = artifact_seq;
        artifacts_by_key =
            insert (artifact_key u.user_id u.artifact_id)
              (record a { updated_at = now; seq = artifact_seq }) s.artifacts_by_key;
      },
      ok (record {
        success = true;
        header_version = version_if u.header a.header_version;
        body_version = version_if u.body a.body_version;
        current_header_version = none;
        current_body_version = none;
        current_header = none;
        current_body = none;
      }),
    )

unfoldable pub update_artifact : Store → ArtifactUpdate → ℕ → Store × Result ArtifactUpdateResult
unfolding check_header check_body commit_artifact
update_artifact s u now =
    if is_empty u.user_id
    then (s, err missing_user_id)
    else if is_empty u.artifact_id
    then (s, err missing_artifact_id)
    else elim (get_artifact s u.user_id u.artifact_id) [
      | none ↦ (s, err artifact_not_found)
      | some a ↦ elim (check_header u.header u.expected_header_version a) [
        | reply res ↦ (s, ok res)
        | go_on a' ↦ elim (check_body u.body u.expected_body_version a') [
          | reply res ↦ (s, ok res)
          | go_on a'' ↦ commit_artifact s u a'' now
        ]
      ]
    ]

unfoldable pub delete_artifact : Store → GoString → GoString → Store × Bool
delete_artifact s user_id artifact_id =
    if is_empty user_id || is_empty artifact_id
    then (s, false)
    else elim (get_artifact s user_id artifact_id) [
      | none ↦ (s, false)
      | some a ↦ (
        record s {
          artifacts_by_key =
              insert (artifact_key user_id artifact_id) (record a { deleted = true })
                s.artifacts_by_key;
        },
        true,
      )
    ]
