-- ===== src/Model.antt =====
-- internal/model/types.go. `*string` is an `Option`, an integer is its 64-bit pattern.
use happy_server_lite.Base.{ℕ, GoString, Bool, Option}

pub record Account : Type 0 where
  pub id : GoString
  pub public_key : GoString
  pub created_at : ℕ

pub record AuthRequest : Type 0 where
  pub id : GoString
  pub public_key : GoString
  pub supports_v2 : Bool
  pub response : GoString
  pub response_account_id : GoString
  pub token : GoString
  pub created_at : ℕ
  pub updated_at : ℕ

pub record Session : Type 0 where
  pub id : GoString
  pub user_id : GoString
  pub tag : GoString
  pub seq : ℕ
  pub metadata : GoString
  pub metadata_version : ℕ
  pub agent_state : Option GoString
  pub agent_state_version : ℕ
  pub data_encryption_key : Option GoString
  pub active : Bool
  pub active_at : ℕ
  pub created_at : ℕ
  pub updated_at : ℕ
  pub deleted : Bool

pub record SessionMessage : Type 0 where
  pub id : GoString
  pub session_id : GoString
  pub seq : ℕ
  pub content : GoString
  pub created_at : ℕ
  pub updated_at : ℕ

pub record Machine : Type 0 where
  pub id : GoString
  pub user_id : GoString
  pub metadata : GoString
  pub metadata_version : ℕ
  pub daemon_state : Option GoString
  pub daemon_state_version : ℕ
  pub data_encryption_key : Option GoString
  pub created_at : ℕ
  pub updated_at : ℕ

pub record Artifact : Type 0 where
  pub id : GoString
  pub user_id : GoString
  pub header : GoString
  pub header_version : ℕ
  pub body : GoString
  pub body_version : ℕ
  pub data_encryption_key : GoString
  pub seq : ℕ
  pub created_at : ℕ
  pub updated_at : ℕ
  pub deleted : Bool
