-- ===== src/Store/Machines/Views.antt =====
-- What a read of a machine sees after a write, and the registers that a machine holds.
use happy_server_lite.Base.{
  GoString, ==_iff, ◌≡◌, ◌≢◌, Option, none, some, lookup, lookup-insert, arith,
}
use happy_server_lite.Model.{Machine}
use happy_server_lite.Store.State.{Store}
use happy_server_lite.Store.Register.{Register}
use happy_server_lite.Store.Machines.{get_machine, put_machine}

get_machine-found :
    (s : Store) (user_id mid : GoString) (m : Machine)
    → get_machine s user_id mid ≡ some m
    → (lookup mid s.machines_by_id ≡ some m) × (m.user_id ≡ user_id)
unfolding get_machine
get_machine-found s user_id mid m h = ground (arith, ==_iff m.user_id user_id)

-- A rewritten machine that keeps its owner is read back by its owner.
pub get_machine-put_machine_self :
    (s : Store) (user_id mid : GoString) (m m' : Machine)
    → get_machine s user_id mid ≡ some m
    → m'.user_id ≡ m.user_id
    → get_machine (put_machine s mid m') user_id mid ≡ some m'
unfolding get_machine
get_machine-put_machine_self s user_id mid m m' h u = ground (
  arith,
  lookup-insert mid mid m' s.machines_by_id,
  ==_iff mid mid,
  ==_iff m.user_id user_id,
  ==_iff m'.user_id user_id,
)

pub get_machine-put_machine_ne :
    (s : Store) (mid : GoString) (m' : Machine) (v j : GoString)
    → j ≢ mid
    → get_machine (put_machine s mid m') v j ≡ get_machine s v j
unfolding get_machine
get_machine-put_machine_ne s mid m' v j h =
    ground (arith, lookup-insert j mid m' s.machines_by_id, ==_iff mid j)

abbrev pub metadata_of : Option Machine → Option (Register GoString)
metadata_of none = none
metadata_of (some m) = some (record { version = m.metadata_version; value = m.metadata })

abbrev pub daemon_state_of : Option Machine → Option (Register (Option GoString))
daemon_state_of none = none
daemon_state_of (some m) =
    some (record { version = m.daemon_state_version; value = m.daemon_state })
