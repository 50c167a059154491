-- ===== src/Store/Sessions.antt =====
-- Sessions of internal/store/store.go. A fresh identifier and the time are arguments.
pub mod Views
pub mod Registers
pub mod Index
pub mod Lifecycle
pub mod Creation
pub mod Listing
use happy_server_lite.Base.{
  ℕ, GoString, is_empty, ◌==◌, Option, none, some, Bool, true, false, ◌&&◌, not, lookup, insert,
  delete, get_or, values, eqb, inc64, slt, if◌then◌else◌, List, [], filter, sort_slice,
}
use happy_server_lite.Model.{Session}
use happy_server_lite.Store.State.{
  Store, Outcome, success, version_mismatch, not_found, user_tag_key, Result, ok, err,
  missing_user_id, missing_tag,
}

-- Go's zero value, which a read of a missing key gives
abbrev zero_session : Session
zero_session = record {
  id = [];
  user_id = [];
  tag = [];
  seq = 0;
  metadata = [];
  metadata_version = 0;
  agent_state = none;
  agent_state_version = 0;
  data_encryption_key = none;
  active = false;
  active_at = 0;
  created_at = 0;
  updated_at = 0;
  deleted = false;
}

-- `sess.UserID == userID && !sess.Deleted`
unfoldable pub accessible : GoString → Session → Bool
accessible user_id sess = sess.user_id == user_id && not sess.deleted

unfoldable pub get_session : Store → GoString → GoString → Option Session
get_session s user_id session_id = elim (lookup session_id s.sessions_by_id) [
  | none ↦ none
  | some sess ↦ if accessible user_id sess then some sess else none
]

abbrev pub put_session : Store → GoString → Session → Store
put_session s session_id sess = record s {
  sessions_by_id = insert session_id sess s.sessions_by_id;
}

-- The three updates that a repeated creation may make, each with the flag `changed`.
unfoldable pub refresh_metadata : GoString → Session × Bool → Session × Bool
refresh_metadata metadata (sess, changed) =
    if not (is_empty metadata) && not (metadata == sess.metadata)
    then (record sess { metadata = metadata; metadata_version = inc64 sess.metadata_version }, true)
    else (sess, changed)

-- `old == nil || *old != new`
unfoldable pub differs : Option GoString → GoString → Bool
differs none new = true
differs (some old) new = not (old == new)

unfoldable pub refresh_agent_state : Option GoString → Session × Bool → Session × Bool
unfolding differs
refresh_agent_state none (sess, changed) = (sess, changed)
refresh_agent_state (some agent_state) (sess, changed) =
    if differs sess.agent_state agent_state
    then (
      record sess {
        agent_state = some agent_state;
        agent_state_version = inc64 sess.agent_state_version;
      },
      true,
    )
    else (sess, changed)

unfoldable pub refresh_key : Option GoString → Session × Bool → Session × Bool
refresh_key none (sess, changed) = (sess, changed)
refresh_key (some key) (sess, changed) = (record sess { data_encryption_key = some key }, true)

-- What a creation is asked for.
pub record SessionRequest : Type 0 where
  pub user_id : GoString
  pub tag : GoString
  pub metadata : GoString
  pub agent_state : Option GoString
  pub data_encryption_key : Option GoString

abbrev pub first_version : Option GoString → ℕ
first_version none = 0
first_version (some v) = 1

unfoldable pub refresh_session :
    Store → GoString → Session → SessionRequest → ℕ → Store × Session × Bool
unfolding refresh_metadata refresh_agent_state refresh_key
refresh_session s sid sess r now =
    let (sess', changed) =
      refresh_key r.data_encryption_key
        (refresh_agent_state r.agent_state (refresh_metadata r.metadata (sess, false))) in
    let sess'' : Session = record sess' { updated_at = now } in
    if changed then (put_session s sid sess'', sess'', false) else (s, sess', false)

unfoldable pub create_session : Store → SessionRequest → GoString → ℕ → Store × Session × Bool
create_session s r new_id now =
    let sess : Session = record {
      id = new_id;
      user_id = r.user_id;
      tag = r.tag;
      seq = 0;
      metadata = r.metadata;
      metadata_version = if is_empty r.metadata then 0 else 1;
      agent_state = r.agent_state;
      agent_state_version = first_version r.agent_state;
      data_encryption_key = r.data_encryption_key;
      active = false;
      active_at = 0;
      created_at = now;
      updated_at = now;
      deleted = false;
    } in
    (
      record s {
        sessions_by_id = insert new_id sess s.sessions_by_id;
        session_id_by_user_tag =
            insert (user_tag_key r.user_id r.tag) new_id s.session_id_by_user_tag;
      },
      sess,
      true,
    )

-- the part of `GetOrCreateSession` under the lock
unfoldable pub get_or_create_locked : Store → SessionRequest → GoString → ℕ → Store × Session × Bool
unfolding refresh_session create_session
get_or_create_locked s r new_id now =
    let key = user_tag_key r.user_id r.tag in
    elim (lookup key s.session_id_by_user_tag) [
      | none ↦ create_session s r new_id now
      | some sid ↦
          let sess : Session = get_or sid zero_session s.sessions_by_id in
          if sess.deleted
          then create_session
              (record s { session_id_by_user_tag = delete key s.session_id_by_user_tag }) r new_id
              now
          else refresh_session s sid sess r now
    ]

unfoldable pub get_or_create_session :
    Store → SessionRequest → GoString → ℕ → Store × Result (Session × Bool)
unfolding get_or_create_locked
get_or_create_session s r new_id now =
    if is_empty r.user_id
    then (s, err missing_user_id)
    else if is_empty r.tag
    then (s, err missing_tag)
    else let (s', sess, created) = get_or_create_locked s r new_id now in (s', ok (sess, created))

-- `result[i].UpdatedAt > result[j].UpdatedAt`
abbrev pub newer : Session → Session → Bool
newer a b = slt b.updated_at a.updated_at

unfoldable pub list_sessions : Store → GoString → List Session
list_sessions s user_id = sort_slice newer (filter (accessible user_id) (values s.sessions_by_id))

unfoldable pub update_session_metadata :
    Store → GoString → GoString → ℕ → GoString → ℕ → Store × Outcome GoString
update_session_metadata s user_id session_id expected_version metadata now =
    elim (get_session s user_id session_id) [
      | none ↦ (s, record { status = not_found; version = 0; current_value = [] })
      | some sess ↦
          if not (eqb expected_version sess.metadata_version)
          then (
            s,
            record {
              status = version_mismatch;
              version = sess.metadata_version;
              current_value = sess.metadata;
            },
          )
          else let sess' : Session = record sess {
            metadata = metadata;
            metadata_version = inc64 sess.metadata_version;
            updated_at = now;
          } in
            (
              put_session s session_id sess',
              record {
                status = success;
                version = sess'.metadata_version;
                current_value = sess'.metadata;
              },
            )
    ]

unfoldable pub update_session_agent_state :
    Store → GoString → GoString → ℕ → Option GoString → ℕ → Store × Outcome (Option GoString)
update_session_agent_state s user_id session_id expected_version agent_state now =
    elim (get_session s user_id session_id) [
      | none ↦ (s, record { status = not_found; version = 0; current_value = none })
      | some sess ↦
          if not (eqb expected_version sess.agent_state_version)
          then (
            s,
            record {
              status = version_mismatch;
              version = sess.agent_state_version;
              current_value = sess.agent_state;
            },
          )
          else let sess' : Session = record sess {
            agent_state = agent_state;
            agent_state_version = inc64 sess.agent_state_version;
            updated_at = now;
          } in
            (
              put_session s session_id sess',
              record {
                status = success;
                version = sess'.agent_state_version;
                current_value = sess'.agent_state;
              },
            )
    ]

unfoldable pub set_session_active : Store → GoString → GoString → Bool → ℕ → ℕ → Store × Bool
set_session_active s user_id session_id active active_at now =
    elim (get_session s user_id session_id) [
      | none ↦ (s, false)
      | some sess ↦ (
        put_session s session_id (record sess {
          active = active;
          active_at = if active then active_at else sess.active_at;
          updated_at = now;
        }),
        true,
      )
    ]

-- The index entry goes only if it names this session; then the messages go.
unfoldable pub delete_session : Store → GoString → GoString → ℕ → Store × Bool
delete_session s user_id session_id now = elim (get_session s user_id session_id) [
  | none ↦ (s, false)
  | some sess ↦
      let key = user_tag_key user_id sess.tag in
      (
        record s {
          sessions_by_id =
              insert session_id (record sess { deleted = true; updated_at = now }) s.sessions_by_id;
          session_id_by_user_tag =
              if get_or key [] s.session_id_by_user_tag == session_id
              then delete key s.session_id_by_user_tag
              else s.session_id_by_user_tag;
          messages = delete session_id s.messages;
        },
        true,
      )
]
