-- ===== src/Tests/Channels.antt =====
-- The theorems on the hub and on the real-time connections.
use happy_server_lite.Base.{
  GoString, codes, [], ◌∷◌, Option, none, some, Bool, true, false, not, ◌&&◌, ◌≡◌, refl, ◌==◌,
  lookup, insert, arith, if◌then◌else◌, filter, eqb,
}
use happy_server_lite.Tests.Data.{alice, bob, sid_1, store_1, lookup-single}
use happy_server_lite.Base.Pointers.{Pointer, contains, add}
use happy_server_lite.Hub.{Hub, broadcast}
use happy_server_lite.Hub.Delivery.{members, NoEmpty}
use happy_server_lite.Store.Sessions.{get_session, accessible}
use happy_server_lite.SocketIo.Protocol.{parse_optional_namespace}
use happy_server_lite.SocketIo.Connections.{
  Conn, Server, Connected, ConnectAuth, user_scoped, session_scoped, admit, scope_error,
  handle_connect, unregister_conn_locked, join_room,
}
use happy_server_lite.SocketIo.Connections.Rooms.{in_room}
use happy_server_lite.SocketIo.Connections.Admission.{Placed, IsAdmitted, owns_method}
use happy_server_lite.Hub.Delivery.{broadcast-members}
use happy_server_lite.SocketIo.Connections.Admission.{
  handle_connect-IsAdmitted, unregister_conn_locked-rooms,
}

-- two connections of one user, of which the second cannot be written to
abbrev hub_1 : Hub
hub_1 = record { connections = (alice, 1 ∷ 2 ∷ []) ∷ [] }

abbrev first_only : Pointer → Bool
first_only p = eqb p 1

hub_1-NoEmpty : NoEmpty hub_1
hub_1-NoEmpty = record {
  at = λ u set h. let (k, v) = lookup-single alice u (1 ∷ 2 ∷ []) set h in rw (← v) refl;
}

abbrev nobody : Conn
nobody = record {
  connected = false;
  user_id = [];
  client_type = [];
  session_id = [];
  machine_id = [];
}

abbrev server_0 : Server
server_0 = record {
  room_users = [];
  room_sessions = [];
  room_machines = [];
  rpc_by_method = [];
  conns = 1 ∷ [];
  conn_of = λ p. nobody;
}

server_0-Placed : Placed server_0
unfolding lookup contains
server_0-Placed = record {
  users = λ k p h. absurd (ground (arith, h));
  sessions = λ k p h. absurd (ground (arith, h));
  machines = λ k p h. absurd (ground (arith, h));
}

abbrev auth_1 : ConnectAuth
auth_1 = record {
  token = codes "token";
  client_type = session_scoped;
  session_id = sid_1;
  machine_id = [];
}

abbrev check_1 : GoString → Option GoString
check_1 token = if token == codes "token" then some alice else none

abbrev decode_1 : GoString → Option ConnectAuth
decode_1 text = some auth_1

-- a payload without a namespace
abbrev payload_1 : GoString
payload_1 = codes "{}"

abbrev server_1 : Server
server_1 = admit server_0 1 alice auth_1

connected_1 :
    handle_connect check_1 decode_1 store_1 server_0 1 payload_1
    ≡ Connected.accepted (codes "/") server_1
unfolding handle_connect parse_optional_namespace scope_error get_session accessible lookup ◌==◌
connected_1 = refl

server_1-Placed : Placed server_1
server_1-Placed =
    (handle_connect-IsAdmitted check_1 decode_1 store_1 server_0 1 payload_1 (codes "/") server_1
      connected_1 server_0-Placed).1

-- A client with the user scope may name any session: here a user who cannot read the session joins
-- its room.
abbrev auth_of_bob : ConnectAuth
auth_of_bob = record auth_1 { client_type = user_scoped }

abbrev check_bob : GoString → Option GoString
check_bob token = some bob

abbrev joined : Connected → Bool
joined Connected.already = false
joined (Connected.refused e) = false
joined (Connected.accepted ns t) = in_room t.room_sessions sid_1 1

bob_joins_session_of_alice :
    (get_session store_1 bob sid_1 ≡ none)
    × (joined (handle_connect check_bob (λ text. some auth_of_bob) store_1 server_0 1 payload_1)
        ≡ true)
unfolding handle_connect parse_optional_namespace scope_error get_session accessible lookup ◌==◌
    admit join_room insert add contains
bob_joins_session_of_alice = (refl, refl)

broadcast-members_example :
    (members (broadcast (λ p. alice) first_only hub_1 alice).0 bob
      ≡ (if alice == bob then filter first_only (members hub_1 alice) else members hub_1 bob))
    × ((broadcast (λ p. alice) first_only hub_1 alice).1 ≡ members hub_1 alice)
    × ((broadcast (λ p. alice) first_only hub_1 alice).2
        ≡ filter (λ c. not (first_only c)) (members hub_1 alice))
    × NoEmpty (broadcast (λ p. alice) first_only hub_1 alice).0
broadcast-members_example =
    broadcast-members (λ p. alice) first_only hub_1 alice bob (λ c i. refl) hub_1-NoEmpty

handle_connect-IsAdmitted_example :
    IsAdmitted check_1 decode_1 store_1 server_0 1 payload_1 server_1 × Placed server_1
handle_connect-IsAdmitted_example =
    handle_connect-IsAdmitted check_1 decode_1 store_1 server_0 1 payload_1 (codes "/") server_1
      connected_1 server_0-Placed

unregister_conn_locked-rooms_example :
    (in_room (unregister_conn_locked server_1 1).room_users sid_1 1
      ≡ (not (eqb 1 1) && in_room server_1.room_users sid_1 1))
    × (in_room (unregister_conn_locked server_1 1).room_sessions sid_1 1
        ≡ (not (eqb 1 1) && in_room server_1.room_sessions sid_1 1))
    × (in_room (unregister_conn_locked server_1 1).room_machines sid_1 1
        ≡ (not (eqb 1 1) && in_room server_1.room_machines sid_1 1))
    × (owns_method 1 (unregister_conn_locked server_1 1).rpc_by_method
        ≡ (not (eqb 1 1) && owns_method 1 server_1.rpc_by_method))
    × (contains (unregister_conn_locked server_1 1).conns 1
        ≡ (not (eqb 1 1) && contains server_1.conns 1))
unregister_conn_locked-rooms_example =
    unregister_conn_locked-rooms server_1 1 server_1-Placed sid_1 1
