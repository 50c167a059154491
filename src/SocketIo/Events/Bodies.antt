-- ===== src/SocketIo/Events/Bodies.antt =====
-- The structs that the events' first arguments are decoded into, and the state and the effects of the
-- handlers.
use happy_server_lite.Base.{ℕ, GoString, Bool, Option, none, List, [], ◌∷◌, Map, ◌⊎◌}
use happy_server_lite.Base.Pointers.{Pointer}
use happy_server_lite.Json.{Json}
use happy_server_lite.Model.{Machine}
use happy_server_lite.Store.State.{Store}
use happy_server_lite.SocketIo.Connections.{Server}
use happy_server_lite.SocketIo.Protocol.{EventPacket}

pub record MessageBody : Type 0 where
  pub sid : GoString
  pub message : GoString
  pub local_id : GoString

pub record MetadataBody : Type 0 where
  pub sid : GoString
  pub expected_version : ℕ
  pub metadata : GoString

pub record StateBody : Type 0 where
  pub sid : GoString
  pub expected_version : ℕ
  pub agent_state : Option GoString

pub record MachineMetadataBody : Type 0 where
  pub machine_id : GoString
  pub expected_version : ℕ
  pub metadata : GoString

pub record MachineStateBody : Type 0 where
  pub machine_id : GoString
  pub expected_version : ℕ
  pub daemon_state : Option GoString

pub record MethodBody : Type 0 where
  pub method : GoString

pub record CallBody : Type 0 where
  pub method : GoString
  pub params : GoString

pub record MachineAliveBody : Type 0 where
  pub machine_id : GoString
  pub time : ℕ

-- A `float64` is the value that it is marshalled to.
pub record UsageBody : Type 0 where
  pub key : GoString
  pub session_id : GoString
  pub tokens : Map Json
  pub cost : Map Json

pub record AliveBody : Type 0 where
  pub sid : GoString
  pub time : ℕ
  pub thinking : Bool

pub record EndBody : Type 0 where
  pub sid : GoString

-- `json.Unmarshal` into each of them
pub record Decoders : Type 0 where
  pub message_body : GoString → Option MessageBody
  pub metadata_body : GoString → Option MetadataBody
  pub state_body : GoString → Option StateBody
  pub machine_metadata_body : GoString → Option MachineMetadataBody
  pub machine_state_body : GoString → Option MachineStateBody
  pub method_body : GoString → Option MethodBody
  pub call_body : GoString → Option CallBody
  pub machine_alive_body : GoString → Option MachineAliveBody
  pub usage_body : GoString → Option UsageBody
  pub alive_body : GoString → Option AliveBody
  pub end_body : GoString → Option EndBody

-- The three maps of rooms.
pub data RoomKind : Type 0 where
  users sessions machines : RoomKind

pub data Effect : Type 0 where
  -- `c.enqueueText(string(engineMessage) + packet)`
  reply : (packet : GoString) → Effect
  -- `s.broadcastToRoom(rooms, key, packet)`
  to_room : RoomKind → (key packet : GoString) → Effect
  -- `s.persistMachinesSnapshot`, at the end of an update of a machine
  persist : List Machine → Effect
  -- `h.emitWithAck("rpc-request", arg, rpcTimeout)`
  call : Pointer → Json → Effect

pub record World : Type 0 where
  pub store : Store
  pub server : Server
  pub update_seq : ℕ

abbrev pub Handled : Type 0
Handled = World × List Effect

-- What a handler takes from outside: two readings of the clock, in milliseconds, the identifiers of a
-- new message and of an update, and the answer of a client that is called, or the error.
pub record Inputs : Type 0 where
  pub now : ℕ
  pub later : ℕ
  pub message_id : GoString
  pub update_id : GoString
  pub answer : GoString ⊎ List GoString

-- `len(pkt.Args) < 1 || json.Unmarshal(pkt.Args[0], &body) != nil`, with the body if there is one
abbrev pub first_arg {ℓ} : {A : Type ℓ} → (GoString → Option A) → EventPacket → Option A
first_arg decode pkt = elim pkt.args [ [] ↦ none | (arg ∷ args) ↦ decode arg ]
