-- ===== src/Store/Isolation/Accounts.antt =====
-- Operations on accounts, settings and login requests.
use happy_server_lite.Base.{
  ℕ, GoString, is_empty, ==_iff, ◌≢◌, refl, subst, some, Bool, not, inl, inr, lookup, insert,
  get_or, lookup-insert, arith, eqb, inc64, Option-cases, Map,
}
use happy_server_lite.Model.{Account, AuthRequest}
use happy_server_lite.Store.State.{Store, AccountSettings}
use happy_server_lite.Store.Sessions.{get_session}
use happy_server_lite.Store.Messages.{list_messages, get_after}
use happy_server_lite.Store.Machines.{get_machine}
use happy_server_lite.Store.Artifacts.{get_artifact}
use happy_server_lite.Store.Accounts.{
  no_settings, get_account_settings, update_account_settings, get_or_create_account,
  upsert_auth_request, authorize_auth_request,
}
use happy_server_lite.Store.Isolation.{Untouched, same_store-Untouched, if-Untouched}

-- a store that differs in accounts and login requests only
login_changes-Untouched :
    (v : GoString) (s : Store) (accounts : Map Account) (requests : Map AuthRequest)
    → Untouched v s
        (record s { accounts_by_public_key = accounts; auth_requests_by_key = requests })
unfolding get_artifact get_machine get_session get_account_settings list_messages get_after
login_changes-Untouched v s accounts requests = record {
  sessions = λ j. refl;
  messages = λ j after limit. refl;
  machines = λ j. refl;
  artifacts = λ j. refl;
  settings = refl;
}

pub get_or_create_account-Untouched :
    (v : GoString) (s : Store) (public_key new_id : GoString) (now : ℕ)
    → Untouched v s (get_or_create_account s public_key new_id now).0
unfolding get_or_create_account
get_or_create_account-Untouched v s public_key new_id now =
    elim (Option-cases (lookup public_key s.accounts_by_public_key)) [
      | inl e ↦
          let acc : Account = record { id = new_id; public_key = public_key; created_at = now } in
          subst (Untouched v s) (ground (arith, e)) (
            login_changes-Untouched v s (insert public_key acc s.accounts_by_public_key)
              s.auth_requests_by_key)
      | inr (a, e) ↦ subst (Untouched v s) (ground (arith, e)) (same_store-Untouched v s)
    ]

pub upsert_auth_request-Untouched :
    (v : GoString) (s : Store) (public_key : GoString) (supports_v2 : Bool) (new_id : GoString)
    (now : ℕ)
    → Untouched v s (upsert_auth_request s public_key supports_v2 new_id now).0
unfolding upsert_auth_request
upsert_auth_request-Untouched v s public_key supports_v2 new_id now =
    let (s', req) = upsert_auth_request s public_key supports_v2 new_id now in
    login_changes-Untouched v s s.accounts_by_public_key
      (insert public_key req s.auth_requests_by_key)

pub authorize_auth_request-Untouched :
    (v : GoString) (s : Store) (public_key response account token : GoString) (now : ℕ)
    → Untouched v s (authorize_auth_request s public_key response account token now).0
unfolding authorize_auth_request
authorize_auth_request-Untouched v s public_key response account token now =
    elim (Option-cases (lookup public_key s.auth_requests_by_key)) [
      | inl e ↦ subst (Untouched v s) (ground (arith, e)) (same_store-Untouched v s)
      | inr (q, e) ↦
          let q' : AuthRequest = record q {
            response = response;
            response_account_id = account;
            token = token;
            updated_at = now;
          } in
          subst (Untouched v s) (ground (arith, e)) (
            login_changes-Untouched v s s.accounts_by_public_key
              (insert public_key q' s.auth_requests_by_key))
    ]

settings_changes-Untouched :
    (u v : GoString) (s : Store) (st : AccountSettings)
    → u ≢ v
    → Untouched v s
        (record s { account_settings_by_user_id = insert u st s.account_settings_by_user_id })
unfolding get_artifact get_machine get_session get_account_settings list_messages get_after
settings_changes-Untouched u v s st other = record {
  sessions = λ j. refl;
  messages = λ j after limit. refl;
  machines = λ j. refl;
  artifacts = λ j. refl;
  settings = ground (arith, other, lookup-insert v u st s.account_settings_by_user_id, ==_iff u v);
}

pub update_account_settings-Untouched :
    (u v : GoString) (s : Store) (expected : ℕ) (settings : GoString) (now : ℕ)
    → u ≢ v
    → Untouched v s (update_account_settings s u expected settings now).0
unfolding update_account_settings
update_account_settings-Untouched u v s expected settings now other =
    let kept = same_store-Untouched v s in
    let st : AccountSettings = get_or u no_settings s.account_settings_by_user_id in
    let st' : AccountSettings = record { settings = some settings; version = inc64 st.version } in
    if-Untouched v s (is_empty u) _ _ kept (
      if-Untouched v s (not (eqb expected st.version)) _ _ kept
        (settings_changes-Untouched u v s st' other))
