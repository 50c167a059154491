-- ===== src/Store/Sessions/Views.antt =====
-- What a read of a session sees after a write, and the registers that a session holds.
use happy_server_lite.Base.{
  GoString, ◌==◌, ==_iff, ◌≡◌, ◌≢◌, Option, none, some, true, false, lookup, lookup-insert,
  if◌then◌else◌, arith,
}
use happy_server_lite.Model.{Session}
use happy_server_lite.Store.State.{Store}
use happy_server_lite.Store.Register.{Register}
use happy_server_lite.Store.Sessions.{accessible, get_session, put_session}

abbrev shown : GoString → Session → Option Session
shown user_id sess = if accessible user_id sess then some sess else none

get_session-put_session :
    (s : Store) (k : GoString) (sess : Session) (user_id j : GoString)
    → get_session (put_session s k sess) user_id j
      ≡ (if k == j then shown user_id sess else get_session s user_id j)
unfolding get_session
get_session-put_session s k sess user_id j = ground (arith, lookup-insert j k sess s.sessions_by_id)

pub get_session-found :
    (s : Store) (user_id sid : GoString) (sess : Session)
    → get_session s user_id sid ≡ some sess
    → (lookup sid s.sessions_by_id ≡ some sess) × (accessible user_id sess ≡ true)
unfolding get_session
get_session-found s user_id sid sess h = ground arith

pub accessible_iff :
    (user_id : GoString) (sess : Session)
    → accessible user_id sess ≡ true
    → (sess.user_id ≡ user_id) × (sess.deleted ≡ false)
unfolding accessible
accessible_iff user_id sess h = ground (arith, ==_iff sess.user_id user_id)

abbrev pub metadata_of : Option Session → Option (Register GoString)
metadata_of none = none
metadata_of (some sess) = some (record { version = sess.metadata_version; value = sess.metadata })

abbrev pub agent_state_of : Option Session → Option (Register (Option GoString))
agent_state_of none = none
agent_state_of (some sess) =
    some (record { version = sess.agent_state_version; value = sess.agent_state })

-- A rewritten session that keeps its owner and its deletion mark is read back by its owner.
pub get_session-put_session_self :
    (s : Store) (user_id sid : GoString) (sess sess' : Session)
    → get_session s user_id sid ≡ some sess
    → sess'.user_id ≡ sess.user_id
    → sess'.deleted ≡ sess.deleted
    → get_session (put_session s sid sess') user_id sid ≡ some sess'
unfolding accessible
get_session-put_session_self s user_id sid sess sess' h u d = ground (
  arith,
  get_session-put_session s sid sess' user_id sid,
  get_session-found s user_id sid sess h,
  ==_iff sid sid,
)

pub get_session-put_session_ne :
    (s : Store) (sid : GoString) (sess' : Session) (v j : GoString)
    → j ≢ sid
    → get_session (put_session s sid sess') v j ≡ get_session s v j
get_session-put_session_ne s sid sess' v j h =
    ground (arith, get_session-put_session s sid sess' v j, ==_iff sid j)
