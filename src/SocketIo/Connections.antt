-- ===== src/SocketIo/Connections.antt =====
-- internal/socketio/server.go: who is connected, and which rooms a connection is in. A connection is
-- the pointer to its record; the records are a function of the pointer. The JWT check and the JSON
-- decoding of the connect packet are arguments of `handle_connect`.
pub mod Rooms
pub mod Admission
use happy_server_lite.Base.{
  GoString, codes, is_empty, ◌==◌, Option, none, some, Bool, true, false, not, ◌&&◌, ◌||◌, lookup,
  insert, delete, get_or, List, [], ◌∷◌, Map, filter, if◌then◌else◌, eqb,
}
use happy_server_lite.Base.Pointers.{Pointer, add, remove}
use happy_server_lite.Hub.{is_empty_set}
use happy_server_lite.Store.State.{Store}
use happy_server_lite.Store.Sessions.{get_session}
use happy_server_lite.Store.Machines.{get_machine}
use happy_server_lite.SocketIo.Protocol.{parse_optional_namespace}

-- The fields of `conn` that name its user and its scope.
pub record Conn : Type 0 where
  pub connected : Bool
  pub user_id : GoString
  pub client_type : GoString
  pub session_id : GoString
  pub machine_id : GoString

abbrev pub Rooms : Type 0
Rooms = Map (List Pointer)

-- `connsBySocket` is the set of its connections: each has its own socket.
pub record Server : Type 0 where
  pub room_users : Rooms
  pub room_sessions : Rooms
  pub room_machines : Rooms
  pub rpc_by_method : Map Pointer
  pub conns : List Pointer
  pub conn_of : Pointer → Conn

abbrev pub user_scoped : GoString
user_scoped = codes "user-scoped"

abbrev pub session_scoped : GoString
session_scoped = codes "session-scoped"

abbrev pub machine_scoped : GoString
machine_scoped = codes "machine-scoped"

unfoldable pub join_room : Rooms → GoString → Pointer → Rooms
join_room rooms key c =
    if is_empty key then rooms else insert key (add c (get_or key [] rooms)) rooms

unfoldable pub leave_room : Rooms → GoString → Pointer → Rooms
leave_room rooms key c = elim (lookup key rooms) [
  | none ↦ rooms
  | some set ↦
      let left = remove c set in
      if is_empty_set left then delete key rooms else insert key left rooms
]

unfoldable pub register_conn : Server → Pointer → Server
register_conn s c = record {
  room_users = s.room_users;
  room_sessions = s.room_sessions;
  room_machines = s.room_machines;
  rpc_by_method = s.rpc_by_method;
  conns = add c s.conns;
  conn_of = s.conn_of;
}

-- the loop that drops the connection's RPC methods
unfoldable pub drop_methods : Pointer → Map Pointer → Map Pointer
drop_methods c methods = filter (λ entry. not (eqb entry.1 c)) methods

-- The part of `unregisterConn` under the lock: the announcements and the close follow it.
unfoldable pub unregister_conn_locked : Server → Pointer → Server
unregister_conn_locked s c =
    let known = s.conn_of c in
    let left_users = leave_room s.room_users known.user_id c in
    let left_sessions = leave_room s.room_sessions known.session_id c in
    let left_machines = leave_room s.room_machines known.machine_id c in
    let anonymous = is_empty known.user_id in
    record {
      room_users =
          if not anonymous && known.client_type == user_scoped then left_users else s.room_users;
      room_sessions =
          if not anonymous && not (is_empty known.session_id)
          then left_sessions
          else s.room_sessions;
      room_machines =
          if not anonymous && not (is_empty known.machine_id)
          then left_machines
          else s.room_machines;
      rpc_by_method = drop_methods c s.rpc_by_method;
      conns = remove c s.conns;
      conn_of = s.conn_of;
    }

-- The body of a connect packet.
pub record ConnectAuth : Type 0 where
  pub token : GoString
  pub client_type : GoString
  pub session_id : GoString
  pub machine_id : GoString

-- A refusal writes the error and closes the connection.
pub data ConnectError : Type 0 where
  missing_auth invalid_auth missing_token invalid_token invalid_client_type : ConnectError
  missing_session_id session_not_found missing_machine_id machine_not_found : ConnectError

pub data Connected : Type 0 where
  already : Connected
  refused : ConnectError → Connected
  accepted : GoString → Server → Connected

abbrev pub is_some {ℓ} : {A : Type ℓ} → Option A → Bool
is_some none = false
is_some (some a) = true

-- `s.conn_of` with the record of one connection replaced
abbrev with_conn : (Pointer → Conn) → Pointer → Conn → Pointer → Conn
with_conn table c known p = if eqb p c then known else table p

-- The assignments to the connection, and the rooms it joins.
unfoldable pub admit : Server → Pointer → GoString → ConnectAuth → Server
admit s c user_id auth =
    let known : Conn = record {
      connected = true;
      user_id = user_id;
      client_type = auth.client_type;
      session_id = auth.session_id;
      machine_id = auth.machine_id;
    } in
    let users = join_room s.room_users user_id c in
    let sessions = join_room s.room_sessions auth.session_id c in
    let machines = join_room s.room_machines auth.machine_id c in
    record {
      room_users = if auth.client_type == user_scoped then users else s.room_users;
      room_sessions = if not (is_empty auth.session_id) then sessions else s.room_sessions;
      room_machines = if not (is_empty auth.machine_id) then machines else s.room_machines;
      rpc_by_method = s.rpc_by_method;
      conns = s.conns;
      conn_of = with_conn s.conn_of c known;
    }

module _ (verify_token : GoString → Option GoString) (decode_auth : GoString → Option ConnectAuth)
    (store : Store) where
  -- the checks on the scope, in the source's order
  unfoldable pub scope_error : GoString → ConnectAuth → Option ConnectError
  scope_error user_id auth =
      let for_session = auth.client_type == session_scoped in
      let for_machine = auth.client_type == machine_scoped in
      if not (auth.client_type == user_scoped) && not for_session && not for_machine
      then some ConnectError.invalid_client_type
      else if for_session && is_empty auth.session_id
      then some ConnectError.missing_session_id
      else if for_session && not (is_some (get_session store user_id auth.session_id))
      then some ConnectError.session_not_found
      else if for_machine && is_empty auth.machine_id
      then some ConnectError.missing_machine_id
      else if for_machine && not (is_some (get_machine store user_id auth.machine_id))
      then some ConnectError.machine_not_found
      else none

  abbrev scoped :
      Server → Pointer → GoString → GoString → ConnectAuth → Option ConnectError → Connected
  scoped s c ns user_id auth none = Connected.accepted ns (admit s c user_id auth)
  scoped s c ns user_id auth (some e) = Connected.refused e

  abbrev verified : Server → Pointer → GoString → ConnectAuth → Option GoString → Connected
  verified s c ns auth none = Connected.refused ConnectError.invalid_token
  verified s c ns auth (some user_id) =
      let checked = scoped s c ns user_id auth (scope_error user_id auth) in
      if is_empty user_id then Connected.refused ConnectError.invalid_token else checked

  abbrev decoded : Server → Pointer → GoString → Option ConnectAuth → Connected
  decoded s c ns none = Connected.refused ConnectError.invalid_auth
  decoded s c ns (some auth) =
      let checked = verified s c ns auth (verify_token auth.token) in
      if is_empty auth.token then Connected.refused ConnectError.missing_token else checked

  -- `handleConnect` on the payload behind its first byte; `accepted` carries the namespace that the
  -- connect packet of the answer names.
  unfoldable pub handle_connect : Server → Pointer → GoString → Connected
  handle_connect s c payload =
      let (ns, rest) = parse_optional_namespace payload in
      let checked = decoded s c ns (decode_auth rest) in
      if (s.conn_of c).connected
      then Connected.already
      else if is_empty rest
      then Connected.refused ConnectError.missing_auth
      else checked
