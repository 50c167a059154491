-- ===== src/Http/Accounts.antt =====
-- internal/handler/account.go
use happy_server_lite.Base.{ℕ, GoString, codes, is_empty, false, Option, [], ◌∷◌, if◌then◌else◌}
use happy_server_lite.Json.{Json, arr, optional}
use happy_server_lite.Store.State.{
  Store, Status, success, version_mismatch, not_found, error, Outcome,
}
use happy_server_lite.Store.Accounts.{get_account_settings, update_account_settings}
use happy_server_lite.Http.Answers.{
  Answer, answer, failed, ok_status, bad_request, succeeded, with_user, with_body,
}

unfoldable pub profile : Store → Option GoString → ℕ → Store × Answer
profile s user now = with_user s user (λ user_id. (
  s,
  answer ok_status (
      (codes "id", Json.string user_id)
      ∷ (codes "timestamp", Json.number now)
      ∷ (codes "firstName", Json.null)
      ∷ (codes "lastName", Json.null)
      ∷ (codes "avatar", Json.null)
      ∷ (codes "github", Json.null)
      ∷ (codes "connectedServices", arr [])
      ∷ []),
))

unfoldable pub settings : Store → Option GoString → Store × Answer
settings s user = with_user s user (λ user_id.
    let (value, version) = get_account_settings s user_id in
    (
      s,
      answer ok_status (
          (codes "settings", optional value) ∷ (codes "settingsVersion", Json.number version) ∷ []),
    ))

pub record UpdateSettingsBody : Type 0 where
  pub settings : GoString
  pub expected_version : ℕ

abbrev settings_answer : Outcome (Option GoString) → Status → Answer
settings_answer out success = succeeded
settings_answer out version_mismatch = answer ok_status (
    (codes "success", Json.bool false)
    ∷ (codes "error", Json.string (codes "version-mismatch"))
    ∷ (codes "currentVersion", Json.number out.version)
    ∷ (codes "currentSettings", optional out.current_value)
    ∷ [])
settings_answer out not_found =
    answer bad_request
      ((codes "success", Json.bool false) ∷ (codes "error", Json.string (codes "error")) ∷ [])
settings_answer out error =
    answer bad_request
      ((codes "success", Json.bool false) ∷ (codes "error", Json.string (codes "error")) ∷ [])

unfoldable pub update_settings :
    Store → Option GoString → Option UpdateSettingsBody → ℕ → Store × Answer
update_settings s user decoded now = with_user s user (λ user_id. with_body s decoded (λ body.
    let (s', out) = update_account_settings s user_id body.expected_version body.settings now in
    if is_empty body.settings
    then (s, failed bad_request (codes "Missing settings"))
    else (s', settings_answer out out.status)))
