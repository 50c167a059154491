-- ===== src/Store/State.antt =====
-- The struct `Store` of internal/store/store.go, with the maps of its message store and its
-- sequence generator in place of the pointers to them, and the constructor. An operation takes the
-- store and returns the new one, in one step.
pub mod Keys
use happy_server_lite.Base.{ℕ, GoString, Option, [], List, Map, ◌++◌, ◌∷◌}
use happy_server_lite.Model.{Account, AuthRequest, Session, SessionMessage, Machine, Artifact}

pub record AccountSettings : Type 0 where
  pub settings : Option GoString
  pub version : ℕ

pub record Store : Type 0 where
  pub machines_state_file : GoString
  pub accounts_by_public_key : Map Account
  pub auth_requests_by_key : Map AuthRequest
  pub sessions_by_id : Map Session
  pub session_id_by_user_tag : Map GoString
  pub machines_by_id : Map Machine
  pub artifacts_by_key : Map Artifact
  pub artifact_seq : ℕ
  pub account_settings_by_user_id : Map AccountSettings
  pub messages : Map (List SessionMessage)
  pub seq : Map ℕ

-- `NewWithOptions` before it loads the machines from the file
abbrev pub empty_store : GoString → Store
empty_store machines_state_file = record {
  machines_state_file = machines_state_file;
  accounts_by_public_key = [];
  auth_requests_by_key = [];
  sessions_by_id = [];
  session_id_by_user_tag = [];
  machines_by_id = [];
  artifacts_by_key = [];
  artifact_seq = 0;
  account_settings_by_user_id = [];
  messages = [];
  seq = [];
}

-- The results of an update with an expected version, `"success"` and so on in the source.
pub data Status : Type 0 where
  success version_mismatch not_found error : Status

pub record Outcome {ℓ} (A : Type ℓ) : Type ℓ where
  pub status : Status
  pub version : ℕ
  pub current_value : A

-- `userID + "|" + tag`
unfoldable pub user_tag_key : GoString → GoString → GoString
user_tag_key user_id tag = user_id ++ (b'|' ∷ tag)

pub data StoreError : Type 0 where
  missing_user_id missing_tag missing_machine_id machine_belongs_to_another_user : StoreError
  session_not_found missing_artifact_id missing_artifact_fields artifact_not_found : StoreError

pub data Result {ℓ} (A : Type ℓ) : Type ℓ where
  ok : A → Result A
  err : StoreError → Result A
