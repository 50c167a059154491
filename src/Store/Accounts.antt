-- ===== src/Store/Accounts.antt =====
-- Accounts, authorisation requests and account settings of internal/store/store.go. A fresh
-- identifier (`uuid.NewString()`) and the time are arguments.
pub mod Settings
pub mod Identity
pub mod Requests
use happy_server_lite.Base.{
  ℕ, GoString, is_empty, Option, none, some, Bool, true, false, ◌||◌, lookup, insert, get_or, eqb,
  inc64, not, if◌then◌else◌, [],
}
use happy_server_lite.Model.{Account, AuthRequest}
use happy_server_lite.Store.State.{
  Store, AccountSettings, Outcome, success, version_mismatch, error,
}

unfoldable pub get_or_create_account : Store → GoString → GoString → ℕ → Store × Account × Bool
get_or_create_account s public_key new_id now = elim (lookup public_key s.accounts_by_public_key) [
  | some existing ↦ (s, existing, false)
  | none ↦
      let acc : Account = record { id = new_id; public_key = public_key; created_at = now } in
      (
        record s { accounts_by_public_key = insert public_key acc s.accounts_by_public_key },
        acc,
        true,
      )
]

unfoldable pub get_auth_request : Store → GoString → Option AuthRequest
get_auth_request s public_key = lookup public_key s.auth_requests_by_key

unfoldable pub upsert_auth_request : Store → GoString → Bool → GoString → ℕ → Store × AuthRequest
upsert_auth_request s public_key supports_v2 new_id now =
    let req : AuthRequest = elim (lookup public_key s.auth_requests_by_key) [
      | some existing ↦ record existing {
        supports_v2 = existing.supports_v2 || supports_v2;
        updated_at = now;
      }
      | none ↦ record {
        id = new_id;
        public_key = public_key;
        supports_v2 = supports_v2;
        response = [];
        response_account_id = [];
        token = [];
        created_at = now;
        updated_at = now;
      }
    ] in
    (record s { auth_requests_by_key = insert public_key req s.auth_requests_by_key }, req)

unfoldable pub authorize_auth_request :
    Store → GoString → GoString → GoString → GoString → ℕ → Store × Option AuthRequest
authorize_auth_request s public_key response response_account_id token now =
    elim (lookup public_key s.auth_requests_by_key) [
      | none ↦ (s, none)
      | some req ↦
          let req' : AuthRequest = record req {
            response = response;
            response_account_id = response_account_id;
            token = token;
            updated_at = now;
          } in
          (
            record s { auth_requests_by_key = insert public_key req' s.auth_requests_by_key },
            some req',
          )
    ]

abbrev pub no_settings : AccountSettings
no_settings = record { settings = none; version = 0 }

unfoldable pub get_account_settings : Store → GoString → Option GoString × ℕ
get_account_settings s user_id = elim (lookup user_id s.account_settings_by_user_id) [
  | none ↦ (none, 0)
  | some st ↦ (st.settings, st.version)
]

unfoldable pub update_account_settings :
    Store → GoString → ℕ → GoString → ℕ → Store × Outcome (Option GoString)
update_account_settings s user_id expected_version settings now =
    if is_empty user_id
    then (s, record { status = error; version = 0; current_value = none })
    else let st : AccountSettings = get_or user_id no_settings s.account_settings_by_user_id in
      if not (eqb expected_version st.version)
      then (
        s,
        record { status = version_mismatch; version = st.version; current_value = st.settings },
      )
      else let st' : AccountSettings = record {
        settings = some settings;
        version = inc64 st.version;
      } in
        (
          record s {
            account_settings_by_user_id = insert user_id st' s.account_settings_by_user_id;
          },
          record { status = success; version = st'.version; current_value = st'.settings },
        )
