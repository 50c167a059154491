-- ===== src/Store/Machines.antt =====
-- Machines of internal/store/store.go. `UpsertMachine`, `UpdateMachineMetadata` and
-- `UpdateMachineDaemonState` do their work under the lock and take a snapshot there, which they
-- write to the state file after the lock is given back: an operation returns the snapshot, `none` if
-- there is nothing to write, and `Store.Persistence` writes it.
pub mod Views
pub mod Registers
pub mod Stages
pub mod Refreshing
pub mod Upsert
pub mod Snapshot
use happy_server_lite.Base.{
  ℕ, GoString, is_empty, ◌==◌, str_lt, Option, none, some, Bool, true, false, ◌&&◌, not, lookup,
  insert, values, eqb, inc64, slt, if◌then◌else◌, List, [], filter, sort_slice, Map,
}
use happy_server_lite.Model.{Machine}
use happy_server_lite.Store.Sessions.{differs, first_version}
use happy_server_lite.Store.State.{
  Store, Outcome, success, version_mismatch, not_found, Result, ok, err, missing_machine_id,
  machine_belongs_to_another_user,
}

-- `result[i].ID < result[j].ID`
abbrev pub id_below : Machine → Machine → Bool
id_below a b = str_lt a.id b.id

unfoldable pub snapshot_machines : Map Machine → List Machine
snapshot_machines machines = sort_slice id_below (values machines)

-- `if s.machinesStateFile != "" { snapshot = s.snapshotMachinesLocked() }`
unfoldable pub snapshot_if_persistent : Store → Option (List Machine)
unfolding snapshot_machines
snapshot_if_persistent s =
    if is_empty s.machines_state_file then none else some (snapshot_machines s.machines_by_id)

abbrev pub put_machine : Store → GoString → Machine → Store
put_machine s machine_id m = record s { machines_by_id = insert machine_id m s.machines_by_id }

unfoldable pub refresh_metadata : GoString → Machine × Bool → Machine × Bool
refresh_metadata metadata (m, changed) =
    if not (is_empty metadata) && not (metadata == m.metadata)
    then (record m { metadata = metadata; metadata_version = inc64 m.metadata_version }, true)
    else (m, changed)

unfoldable pub refresh_daemon_state : Option GoString → Machine × Bool → Machine × Bool
unfolding differs
refresh_daemon_state none (m, changed) = (m, changed)
refresh_daemon_state (some daemon_state) (m, changed) =
    if differs m.daemon_state daemon_state
    then (
      record m {
        daemon_state = some daemon_state;
        daemon_state_version = inc64 m.daemon_state_version;
      },
      true,
    )
    else (m, changed)

unfoldable pub refresh_key : Option GoString → Machine × Bool → Machine × Bool
refresh_key none (m, changed) = (m, changed)
refresh_key (some key) (m, changed) = (record m { data_encryption_key = some key }, true)

-- What an upsert is asked for.
pub record MachineRequest : Type 0 where
  pub user_id : GoString
  pub machine_id : GoString
  pub metadata : GoString
  pub daemon_state : Option GoString
  pub data_encryption_key : Option GoString

-- The store, the machine with the flag `created`, and the snapshot to write.
abbrev pub Upserted : Type 0
Upserted = Store × Result (Machine × Bool) × Option (List Machine)

unfoldable pub refresh_machine : Store → Machine → MachineRequest → ℕ → Upserted
unfolding refresh_metadata refresh_daemon_state refresh_key snapshot_if_persistent
refresh_machine s existing r now =
    let (m, changed) =
      refresh_key r.data_encryption_key
        (refresh_daemon_state r.daemon_state (refresh_metadata r.metadata (existing, false))) in
    let m' : Machine = record m { updated_at = now } in
    let s' = put_machine s r.machine_id m' in
    if changed then (s', ok (m', false), snapshot_if_persistent s') else (s, ok (m, false), none)

unfoldable pub create_machine : Store → MachineRequest → ℕ → Upserted
unfolding snapshot_if_persistent
create_machine s r now =
    let m : Machine = record {
      id = r.machine_id;
      user_id = r.user_id;
      metadata = r.metadata;
      metadata_version = if is_empty r.metadata then 0 else 1;
      daemon_state = r.daemon_state;
      daemon_state_version = first_version r.daemon_state;
      data_encryption_key = r.data_encryption_key;
      created_at = now;
      updated_at = now;
    } in
    let s' = put_machine s r.machine_id m in (s', ok (m, true), snapshot_if_persistent s')

unfoldable pub upsert_machine : Store → MachineRequest → ℕ → Upserted
unfolding refresh_machine create_machine
upsert_machine s r now =
    if is_empty r.machine_id
    then (s, err missing_machine_id, none)
    else elim (lookup r.machine_id s.machines_by_id) [
      | none ↦ create_machine s r now
      | some existing ↦
          if not (existing.user_id == r.user_id)
          then (s, err machine_belongs_to_another_user, none)
          else refresh_machine s existing r now
    ]

unfoldable pub get_machine : Store → GoString → GoString → Option Machine
get_machine s user_id machine_id = elim (lookup machine_id s.machines_by_id) [
  | none ↦ none
  | some m ↦ if m.user_id == user_id then some m else none
]

unfoldable pub update_machine_metadata :
    Store
    → GoString
    → GoString
    → ℕ
    → GoString
    → ℕ
    → Store × Outcome GoString × Option (List Machine)
unfolding snapshot_if_persistent
update_machine_metadata s user_id machine_id expected_version metadata now =
    elim (get_machine s user_id machine_id) [
      | none ↦ (s, record { status = not_found; version = 0; current_value = [] }, none)
      | some m ↦
          if not (eqb expected_version m.metadata_version)
          then (
            s,
            record {
              status = version_mismatch;
              version = m.metadata_version;
              current_value = m.metadata;
            },
            none,
          )
          else let m' : Machine = record m {
            metadata = metadata;
            metadata_version = inc64 m.metadata_version;
            updated_at = now;
          } in
            let s' = put_machine s machine_id m' in
            (
              s',
              record {
                status = success;
                version = m'.metadata_version;
                current_value = m'.metadata;
              },
              snapshot_if_persistent s',
            )
    ]

unfoldable pub update_machine_daemon_state :
    Store
    → GoString
    → GoString
    → ℕ
    → Option GoString
    → ℕ
    → Store × Outcome (Option GoString) × Option (List Machine)
unfolding snapshot_if_persistent
update_machine_daemon_state s user_id machine_id expected_version daemon_state now =
    elim (get_machine s user_id machine_id) [
      | none ↦ (s, record { status = not_found; version = 0; current_value = none }, none)
      | some m ↦
          if not (eqb expected_version m.daemon_state_version)
          then (
            s,
            record {
              status = version_mismatch;
              version = m.daemon_state_version;
              current_value = m.daemon_state;
            },
            none,
          )
          else let m' : Machine = record m {
            daemon_state = daemon_state;
            daemon_state_version = inc64 m.daemon_state_version;
            updated_at = now;
          } in
            let s' = put_machine s machine_id m' in
            (
              s',
              record {
                status = success;
                version = m'.daemon_state_version;
                current_value = m'.daemon_state;
              },
              snapshot_if_persistent s',
            )
    ]

-- `result[i].UpdatedAt > result[j].UpdatedAt`
abbrev pub newer : Machine → Machine → Bool
newer a b = slt b.updated_at a.updated_at

unfoldable pub list_machines : Store → GoString → List Machine
list_machines s user_id =
    sort_slice newer (filter (λ m. m.user_id == user_id) (values s.machines_by_id))
