-- ===== src/Tests/Machines.antt =====
-- The theorems on machines and their file at the small store.
use happy_server_lite.Base.{
  GoString, codes, List, [], ◌∷◌, Option, none, some, false, ◌≡◌, ◌≢◌, refl, ◌==◌, ==_iff, lookup,
  insert, arith, Map, sort_slice, insert_sorted,
}
use happy_server_lite.Store.State.{Store, ok}
use happy_server_lite.Tests.Data.{alice, mid_1, machine_1, store_1, lookup-single}
use happy_server_lite.Model.{Machine}
use happy_server_lite.Store.Machines.{MachineRequest, upsert_machine, snapshot_machines}
use happy_server_lite.Store.Machines.Upsert.{Ends}
use happy_server_lite.Store.Persistence.{
  Calls, PersistedMachinesFile, persist_machines_snapshot, new_with_options, read_disk,
}
use happy_server_lite.Store.Persistence.Restart.{IsComplete}
use happy_server_lite.Store.Persistence.Atomic.{snapshot_file}
use happy_server_lite.Store.Machines.Upsert.{upsert_machine-Ends}
use happy_server_lite.Store.Persistence.Restart.{restart-lookup}

-- new metadata and a first daemon state for the machine of the store
abbrev request_of_alice : MachineRequest
request_of_alice = record {
  user_id = alice;
  machine_id = mid_1;
  metadata = codes "new";
  daemon_state = some (codes "up");
  data_encryption_key = none;
}

-- the small store with a state file
abbrev store_2 : Store
store_2 = record store_1 { machines_state_file = codes "/state" }

abbrev machine_2 : Machine
machine_2 = record machine_1 {
  metadata = codes "new";
  metadata_version = 2;
  daemon_state = some (codes "up");
  daemon_state_version = 1;
  updated_at = 20;
}

abbrev machines_1 : Map Machine
machines_1 = (mid_1, machine_1) ∷ []

abbrev state_file : GoString
state_file = codes "/state"

-- every call succeeds
abbrev calls_1 : Calls
calls_1 = record {
  mkdir_fails = false;
  create_fails = false;
  chmod_fails = false;
  write_fails = false;
  sync_fails = false;
  close_fails = false;
  rename_fails = false;
  written = 0;
  tmp_name = codes "/tmp";
}

abbrev machines_saved : List Machine
machines_saved = machine_1 ∷ []

tmp_not_state : codes "/tmp" ≢ state_file
unfolding ◌==◌
tmp_not_state e = ground (arith, (==_iff (codes "/tmp") state_file).1 e)

-- an encoding that is right for one file
abbrev marshal_1 : PersistedMachinesFile → Option GoString
marshal_1 file = some (codes "one")

abbrev unmarshal_1 : GoString → Option PersistedMachinesFile
unmarshal_1 text = some (snapshot_file machines_saved 20)

machines_1-IsComplete : (k : GoString) (m : Machine) → lookup k machines_1 ≡ some m → IsComplete m
machines_1-IsComplete k m h =
    let (q, v) = lookup-single mid_1 k machine_1 m h in rw (← v) (refl, refl)

upsert_refreshes : upsert_machine store_2 request_of_alice 20 ≡ (
  record store_2 { machines_by_id = (mid_1, machine_2) ∷ [] },
  ok (machine_2, false),
  some (machine_2 ∷ []),
)
unfolding upsert_machine lookup insert ◌==◌ sort_slice insert_sorted
upsert_refreshes = refl

upsert_machine-Ends_example :
    Ends store_2 request_of_alice 20 (upsert_machine store_2 request_of_alice 20)
upsert_machine-Ends_example = upsert_machine-Ends store_2 request_of_alice 20

restart-lookup_example :
    let d' =
      persist_machines_snapshot marshal_1 state_file (snapshot_machines machines_1) 20 calls_1 [] in
    lookup mid_1 (new_with_options unmarshal_1 state_file (read_disk state_file d')).machines_by_id
    ≡ lookup mid_1 machines_1
unfolding lookup ◌==◌ snapshot_machines sort_slice insert_sorted
restart-lookup_example =
    restart-lookup marshal_1 unmarshal_1 state_file (codes "one") machines_1 20 calls_1 [] mid_1
      ((refl, tt), (refl, tt)) machines_1-IsComplete refl refl tmp_not_state refl refl refl
