-- ===== src/Tests/Events.antt =====
-- The theorems on the events of a connection, and those on broadcasts.
use happy_server_lite.Base.{
  GoString, codes, List, [], ◌∷◌, ◌++◌, Option, none, some, true, false, ◌≡◌, ◌≢◌, ◌⊎◌, inl, refl,
  ◌==◌, ==_iff, lookup, arith, if◌then◌else◌, suc,
}
use happy_server_lite.Tests.Data.{alice, bob, sid_1, mid_1, store_1}
use happy_server_lite.Json.{Json, optional}
use happy_server_lite.Model.{Machine}
use happy_server_lite.Store.State.{success}
use happy_server_lite.Base.{All, ==_refl, is_empty}
use happy_server_lite.Base.Pointers.{Pointer, contains, add}
use happy_server_lite.Store.Register.{write}
use happy_server_lite.Store.Sessions.{get_session}
use happy_server_lite.Store.Machines.Snapshot.{Saves}
use happy_server_lite.Store.Machines.{
  get_machine, update_machine_metadata, update_machine_daemon_state,
}
use happy_server_lite.Store.Sessions.Views as SessionViews
use happy_server_lite.Store.Machines.Views as MachineViews
use happy_server_lite.Store.Isolation.{Untouched}
use happy_server_lite.SocketIo.Protocol.{Codec, EventPacket}
use happy_server_lite.SocketIo.Connections.{Conn, Server, user_scoped}
use happy_server_lite.SocketIo.Events.Bodies.{
  MessageBody, MetadataBody, StateBody, MachineMetadataBody, MachineStateBody, Decoders, World,
  Inputs, sessions, machines, users,
}
use happy_server_lite.SocketIo.Events.Updates.{
  session_message, may_write, metadata_update, state_update, machine_metadata_update,
  machine_state_update, persisted, update_response, change_of_session, change_of_machine,
}
use happy_server_lite.SocketIo.Events.Handlers.{Event, dispatch, handle_event}
use happy_server_lite.SocketIo.Events.Audience.{Fits, is_unchecked}
use happy_server_lite.SocketIo.Events.Sequence.{told, seq_after}
use happy_server_lite.SocketIo.Events.Posting.{Posts}
use happy_server_lite.SocketIo.Connections.Admission.{Placed}
use happy_server_lite.SocketIo.Send.{Net, perform, broadcast_to_room, engine_message}
use happy_server_lite.SocketIo.Send.Serving.{Serving}
use happy_server_lite.SocketIo.Send.Lifetime.{
  new_server, new_net, Reached, starts, registers, connects,
}
use happy_server_lite.SocketIo.Connections.{
  ConnectAuth, Connected, register_conn, admit, handle_connect, scope_error,
}
use happy_server_lite.SocketIo.Protocol.{parse_optional_namespace}
use happy_server_lite.SocketIo.Events.Routes.{Received, handle_message}
use happy_server_lite.SocketIo.Send.Ends.{Ends}
use happy_server_lite.SocketIo.Send.Delivery.{longer}
use happy_server_lite.SocketIo.Events.Bodies.{Effect, to_room, reply}
use happy_server_lite.SocketIo.Events.Kept.{handle_event-Untouched}
use happy_server_lite.SocketIo.Events.Audience.Rooms.{dispatch-Fits}
use happy_server_lite.SocketIo.Events.Posting.{session_message-Posts}
use happy_server_lite.SocketIo.Events.Sequence.{
  metadata_update-write, state_update-write, machine_metadata_update-write,
  machine_state_update-write,
}
use happy_server_lite.SocketIo.Send.Performed.{perform_terminates}
use happy_server_lite.SocketIo.Send.Lifetime.{Reached-Serving}
use happy_server_lite.SocketIo.Send.Delivery.{broadcast_to_room-delivers}

-- an encoding of JSON that carries no contents: every event is an update of the metadata
abbrev pub codec_1 : Codec Json
codec_1 = record {
  string_value = λ s. Json.string s;
  raw = λ v. codes "0";
  valid_utf8 = λ s. true;
  marshal_array = λ vs. some (codes "[]");
  marshal_sid = λ s. some (codes "{}");
  unmarshal_array = λ s. some (codes "event" ∷ codes "body" ∷ []);
  unmarshal_string = λ s. some (codes "update-metadata");
}

-- a client of one user, with the user scope
abbrev pub conn_1 : Conn
conn_1 = record {
  connected = true;
  user_id = alice;
  client_type = user_scoped;
  session_id = [];
  machine_id = [];
}

abbrev pub users_1 : Server
users_1 = record {
  room_users = (alice, 1 ∷ []) ∷ [];
  room_sessions = [];
  room_machines = [];
  rpc_by_method = [];
  conns = 1 ∷ [];
  conn_of = λ p. conn_1;
}

abbrev pub world_1 : World
world_1 = record { store = store_1; server = users_1; update_seq = 4 }

-- the same with a state file for the machines
abbrev world_2 : World
world_2 = record world_1 { store = record store_1 { machines_state_file = codes "/state" } }

abbrev pub inputs_1 : Inputs
inputs_1 = record {
  now = 20;
  later = 21;
  message_id = codes "x2";
  update_id = codes "u1";
  answer = inl (codes "RPC timeout");
}

abbrev pub metadata_1 : MetadataBody
metadata_1 = record { sid = sid_1; expected_version = 1; metadata = codes "new" }

abbrev pub posted_1 : MessageBody
posted_1 = record { sid = sid_1; message = codes "next"; local_id = codes "l1" }

abbrev pub state_1 : StateBody
state_1 = record { sid = sid_1; expected_version = 0; agent_state = some (codes "busy") }

abbrev pub machine_metadata_1 : MachineMetadataBody
machine_metadata_1 = record { machine_id = mid_1; expected_version = 1; metadata = codes "new" }

abbrev pub machine_state_1 : MachineStateBody
machine_state_1 = record {
  machine_id = mid_1;
  expected_version = 0;
  daemon_state = some (codes "up");
}

abbrev pub decoders_1 : Decoders
decoders_1 = record {
  message_body = λ s. none;
  metadata_body = λ s. some metadata_1;
  state_body = λ s. some state_1;
  machine_metadata_body = λ s. some machine_metadata_1;
  machine_state_body = λ s. some machine_state_1;
  method_body = λ s. none;
  call_body = λ s. none;
  machine_alive_body = λ s. none;
  usage_body = λ s. none;
  alive_body = λ s. none;
  end_body = λ s. none;
}

abbrev pub packet_1 : EventPacket
packet_1 = record {
  namespace = codes "/";
  id = some 7;
  event = codes "update-metadata";
  args = codes "body" ∷ [];
}

pub alice-ne-bob : alice ≢ bob
alice-ne-bob e = absurd (ground (arith, e))

users_1-Placed : Placed users_1
unfolding lookup contains
users_1-Placed = record {
  users = λ k p h. ground (arith, h, ==_iff alice k, ==_refl user_scoped);
  sessions = λ k p h. absurd (ground (arith, h));
  machines = λ k p h. absurd (ground (arith, h));
}

users_1-Serving : Serving users_1
unfolding lookup contains ◌==◌
users_1-Serving = record { placed = users_1-Placed; registered = λ p h. ground (arith, h) }

-- the queue of the client is closed
abbrev net_1 : Net
net_1 = record { server = users_1; line = λ p. record { closed = true; queue = [] } }

abbrev open_net : Net
open_net = record { server = users_1; line = λ p. record { closed = false; queue = [] } }

-- the state after one client has connected
abbrev check_1 : GoString → Option GoString
check_1 token = some alice

abbrev auth_1 : ConnectAuth
auth_1 = record {
  token = codes "token";
  client_type = user_scoped;
  session_id = [];
  machine_id = [];
}

abbrev decode_1 : GoString → Option ConnectAuth
decode_1 text = some auth_1

abbrev registered_net : Net
registered_net = record new_net { server = register_conn new_server 1 }

abbrev reached_net : Net
reached_net = record registered_net { server = admit (register_conn new_server 1) 1 alice auth_1 }

accepted_1 :
    handle_connect check_1 decode_1 store_1 (register_conn new_server 1) 1 (codes "{}")
    ≡ Connected.accepted (codes "/") (admit (register_conn new_server 1) 1 alice auth_1)
unfolding handle_connect parse_optional_namespace scope_error ◌==◌ register_conn
accepted_1 = refl

there_1 : contains (register_conn new_server 1).conns 1 ≡ true
unfolding register_conn add contains
there_1 = refl

reached_net-Reached : Reached codec_1 check_1 decode_1 reached_net
reached_net-Reached =
    connects registered_net 1 store_1 (codes "{}") (codes "/")
      (admit (register_conn new_server 1) 1 alice auth_1) there_1 accepted_1
      (registers new_net 1 starts)

-- an event of a client arrives at its handler
message_arrives : handle_message codec_1 (codes "42[]") ≡ Received.event (codes "2[]")
unfolding handle_message
message_arrives = refl

abbrev effects_1 : List Effect
effects_1 = reply (codes "ok") ∷ to_room users alice (codes "2[]") ∷ []

handle_event-Untouched_example :
    Untouched bob world_1.store
      (handle_event codec_1 decoders_1 inputs_1 1 world_1 (codes "2[]")).0.store
handle_event-Untouched_example =
    handle_event-Untouched codec_1 decoders_1 inputs_1 world_1 1 (codes "2[]") bob alice-ne-bob

dispatch-Fits_example :
    All
      (Fits world_1.store (world_1.server.conn_of 1) (is_unchecked Event.update_metadata))
      (dispatch codec_1 decoders_1 inputs_1 1 world_1 Event.update_metadata packet_1).1
dispatch-Fits_example =
    dispatch-Fits codec_1 decoders_1 inputs_1 1 world_1 Event.update_metadata packet_1

session_message-Posts_example :
    let done = session_message codec_1 inputs_1 conn_1 world_1 (some posted_1) in
    let ignored =
      (is_empty posted_1.sid ≡ true)
      ⊎ (may_write codec_1 world_1 conn_1 posted_1.sid ≡ false)
      ⊎ (get_session world_1.store conn_1.user_id posted_1.sid ≡ none) in
    ((done ≡ (world_1, [])) × ignored)
    ⊎ ((ignored → ⊥) × Posts codec_1 inputs_1 conn_1 world_1 posted_1 done)
session_message-Posts_example = session_message-Posts codec_1 inputs_1 conn_1 world_1 posted_1

metadata_update-write_example :
    let done = metadata_update codec_1 inputs_1 conn_1 world_1 packet_1 7 (some metadata_1) in
    let (out, after) =
      write [] metadata_1.expected_version metadata_1.metadata
        (SessionViews.metadata_of (get_session world_1.store conn_1.user_id metadata_1.sid)) in
    (SessionViews.metadata_of (get_session done.0.store conn_1.user_id metadata_1.sid) ≡ after)
    × (done.0.update_seq ≡ seq_after codec_1 inputs_1 conn_1 world_1 packet_1 7 out.status)
    × (done.1
        ≡ told codec_1 inputs_1 conn_1 world_1 packet_1 7 sessions metadata_1.sid out
            (update_response (codes "metadata") Json.string)
            (change_of_session (codes "metadata") Json.string metadata_1.sid))
metadata_update-write_example =
    metadata_update-write codec_1 inputs_1 conn_1 world_1 packet_1 7 metadata_1 refl

state_update-write_example :
    let done = state_update codec_1 inputs_1 conn_1 world_1 packet_1 7 (some state_1) in
    let (out, after) =
      write none state_1.expected_version state_1.agent_state
        (SessionViews.agent_state_of (get_session world_1.store conn_1.user_id state_1.sid)) in
    (SessionViews.agent_state_of (get_session done.0.store conn_1.user_id state_1.sid) ≡ after)
    × (done.0.update_seq ≡ seq_after codec_1 inputs_1 conn_1 world_1 packet_1 7 out.status)
    × (done.1
        ≡ told codec_1 inputs_1 conn_1 world_1 packet_1 7 sessions state_1.sid out
            (update_response (codes "agentState") optional)
            (change_of_session (codes "agentState") optional state_1.sid))
state_update-write_example =
    state_update-write codec_1 inputs_1 conn_1 world_1 packet_1 7 state_1 refl

-- Both updates below succeed.
machine_updates_succeed :
    ((update_machine_metadata world_2.store alice mid_1 1 (codes "new") 20).1.status ≡ success)
    × ((update_machine_daemon_state world_2.store alice mid_1 0 (some (codes "up")) 20).1.status
        ≡ success)
unfolding update_machine_metadata update_machine_daemon_state get_machine lookup ◌==◌
machine_updates_succeed = (refl, refl)

machine_metadata_update-write_example :
    let done =
      machine_metadata_update codec_1 inputs_1 conn_1 world_2 packet_1 7
        (some machine_metadata_1) in
    let (out, after) = write [] machine_metadata_1.expected_version machine_metadata_1.metadata (
      MachineViews.metadata_of
        (get_machine world_2.store conn_1.user_id machine_metadata_1.machine_id)) in
    (MachineViews.metadata_of
        (get_machine done.0.store conn_1.user_id machine_metadata_1.machine_id)
      ≡ after)
    × (done.0.update_seq ≡ seq_after codec_1 inputs_1 conn_1 world_2 packet_1 7 out.status)
    × (snapshot : Option (List Machine)) × Saves out.status done.0.store snapshot
    × (done.1
        ≡ persisted snapshot
          ++ told codec_1 inputs_1 conn_1 world_2 packet_1 7 machines machine_metadata_1.machine_id
              out
              (update_response (codes "metadata") Json.string)
              (change_of_machine (codes "metadata") Json.string machine_metadata_1.machine_id))
machine_metadata_update-write_example =
    machine_metadata_update-write codec_1 inputs_1 conn_1 world_2 packet_1 7 machine_metadata_1 refl

machine_state_update-write_example :
    let done =
      machine_state_update codec_1 inputs_1 conn_1 world_2 packet_1 7 (some machine_state_1) in
    let (out, after) = write none machine_state_1.expected_version machine_state_1.daemon_state (
      MachineViews.daemon_state_of
        (get_machine world_2.store conn_1.user_id machine_state_1.machine_id)) in
    (MachineViews.daemon_state_of
        (get_machine done.0.store conn_1.user_id machine_state_1.machine_id)
      ≡ after)
    × (done.0.update_seq ≡ seq_after codec_1 inputs_1 conn_1 world_2 packet_1 7 out.status)
    × (snapshot : Option (List Machine)) × Saves out.status done.0.store snapshot
    × (done.1
        ≡ persisted snapshot
          ++ told codec_1 inputs_1 conn_1 world_2 packet_1 7 machines machine_state_1.machine_id out
              (update_response (codes "daemonState") optional)
              (change_of_machine (codes "daemonState") optional machine_state_1.machine_id))
machine_state_update-write_example =
    machine_state_update-write codec_1 inputs_1 conn_1 world_2 packet_1 7 machine_state_1 refl

perform_terminates_example : Ends net_1.server (perform codec_1 20 2 1 1 effects_1 net_1)
perform_terminates_example =
    perform_terminates codec_1 20 2 1 1 effects_1 net_1 users_1-Serving (omega arith)

Reached-Serving_example : Serving reached_net.server
Reached-Serving_example = Reached-Serving codec_1 check_1 decode_1 reached_net reached_net-Reached

broadcast_to_room-delivers_example :
    (n' : Net) × (broadcast_to_room codec_1 20 (suc 0) open_net users alice (codes "2[]") ≡ some n')
    × (n'.server ≡ open_net.server)
    × ((p : Pointer)
        → n'.line p ≡ (
            if contains (1 ∷ []) p
            then longer (open_net.line p) (engine_message ∷ (codes "2[]"))
            else open_net.line p))
unfolding lookup ◌==◌ contains
broadcast_to_room-delivers_example =
    broadcast_to_room-delivers codec_1 20 0 open_net users alice (codes "2[]") refl (refl, tt)
      (λ p h. (refl, omega arith))
