-- ===== src/SocketIo/Send.antt =====
-- internal/socketio/server.go: the queues of the connections, broadcasts, and the end of a connection.
-- A broadcast unregisters a connection that it cannot queue for, which announces that in broadcasts of
-- its own: `broadcast_to_room` takes the depth of the nesting as fuel, and `none` is a depth that was
-- reached. The goroutine that empties a queue is not a step of a broadcast.
pub mod Serving
pub mod Fewer
pub mod Ends
pub mod Performed
pub mod Lifetime
pub mod Delivery
use happy_server_lite.Base.{
  ℕ, suc, zero, GoString, codes, is_empty, ◌==◌, Bool, true, false, not, ◌&&◌, Option, none, some,
  List, [], ◌∷◌, ◌++◌, if◌then◌else◌, lookup, length, ltb, eqb, get_or,
}
use happy_server_lite.Base.Pointers.{Pointer}
use happy_server_lite.Json.{Json, obj}
use happy_server_lite.SocketIo.Protocol.{◌>>=◌, Codec, build_socket_event_packet}
use happy_server_lite.SocketIo.Connections.{
  Conn, Server, Rooms, session_scoped, machine_scoped, user_scoped, unregister_conn_locked,
}
use happy_server_lite.SocketIo.Events.Bodies.{
  RoomKind, users, sessions, machines, Effect, reply, to_room, persist, call,
}
use happy_server_lite.SocketIo.Events.Updates.{root}

-- `closed` and `sendCh` of a connection.
pub record Line : Type 0 where
  pub closed : Bool
  pub queue : List GoString

pub record Net : Type 0 where
  pub server : Server
  pub line : Pointer → Line

abbrev pub send_queue_size : ℕ
send_queue_size = 256

abbrev pub engine_message : ℕ
engine_message = 52

abbrev pub with_line : Net → Pointer → Line → Net
with_line n c l = record n { line = λ p. if eqb p c then l else n.line p }

unfoldable pub close : Net → Pointer → Net
close n c = with_line n c (record (n.line c) { closed = true })

-- `enqueueText`, with `true` for an error
unfoldable pub enqueue_text : Net → Pointer → GoString → Net × Bool
unfolding close
enqueue_text n c msg =
    let l = n.line c in
    if l.closed
    then (n, true)
    else if ltb (length l.queue) send_queue_size
    then (with_line n c (record l { queue = l.queue ++ msg ∷ [] }), false)
    else (close n c, true)

abbrev pub rooms_of : Server → RoomKind → Rooms
rooms_of s users = s.room_users
rooms_of s sessions = s.room_sessions
rooms_of s machines = s.room_machines

-- one connection of a broadcast, with the way to unregister it
abbrev pub delivered : (Net → Pointer → Option Net) → Net → Pointer → GoString → Option Net
delivered unregister n c msg =
    let (n', failed) = enqueue_text n c msg in if failed then unregister n' c else some n'

-- the loop over the connections of the room
unfoldable pub send_to : (Net → Pointer → Option Net) → GoString → List Pointer → Net → Option Net
send_to unregister msg [] n = some n
send_to unregister msg (c ∷ cs) n = delivered unregister n c msg >>= send_to unregister msg cs

module _ (json : Codec Json) (now : ℕ) where
  -- Broadcasts of one packet, if it was built, to several rooms in turn.
  abbrev Cast : Type 0
  Cast = Net → RoomKind → GoString → GoString → Option Net

  abbrev pub cast_one : Cast → RoomKind → GoString → Option GoString → Net → Option Net
  cast_one cast kind key none n = some n
  cast_one cast kind key (some packet) n = cast n kind key packet

  abbrev pub then_cast : Cast → RoomKind → GoString → Option GoString → Option Net → Option Net
  then_cast cast kind key packet none = none
  then_cast cast kind key packet (some n) = cast_one cast kind key packet n

  abbrev pub machine_inactive : GoString → Option GoString
  machine_inactive machine_id = build_socket_event_packet json root none (codes "ephemeral") (
      obj (
        (codes "type", Json.string (codes "machine-activity"))
        ∷ (codes "id", Json.string machine_id)
        ∷ (codes "active", Json.bool false)
        ∷ (codes "activeAt", Json.number now)
        ∷ [])
      ∷ [])

  abbrev pub session_inactive : GoString → Option GoString
  session_inactive session_id = build_socket_event_packet json root none (codes "ephemeral") (
      obj (
        (codes "type", Json.string (codes "activity"))
        ∷ (codes "id", Json.string session_id)
        ∷ (codes "active", Json.bool false)
        ∷ (codes "activeAt", Json.number now)
        ∷ (codes "thinking", Json.bool false)
        ∷ [])
      ∷ [])

  -- the announcements of a connection that is gone
  unfoldable pub announce_gone : Cast → Conn → Net → Option Net
  announce_gone cast c n =
      let machine_told = cast_one cast users c.user_id (machine_inactive c.machine_id) n in
      let after_machine : Option Net =
        if c.client_type == machine_scoped && not (is_empty c.machine_id)
        then machine_told
        else some n in
      let packet = session_inactive c.session_id in
      let session_told =
        then_cast cast sessions c.session_id packet
          (then_cast cast users c.user_id packet after_machine) in
      if is_empty c.user_id
      then some n
      else if c.client_type == session_scoped && not (is_empty c.session_id)
      then session_told
      else after_machine

  abbrev pub closed_after : Pointer → Option Net → Option Net
  closed_after c none = none
  closed_after c (some n) = some (close n c)

  unfoldable pub unregister_with : Cast → Net → Pointer → Option Net
  unfolding announce_gone
  unregister_with cast n c =
      let n' = record n { server = unregister_conn_locked n.server c } in
      closed_after c (announce_gone cast (n.server.conn_of c) n')

  -- `broadcastToRoom`
  unfoldable pub broadcast_to_room : ℕ → Net → RoomKind → GoString → GoString → Option Net
  unfolding unregister_with send_to
  broadcast_to_room zero n kind key payload = none
  broadcast_to_room (suc depth) n kind key payload =
      let members : List Pointer = get_or key [] (rooms_of n.server kind) in
      let sent : Option Net =
        send_to (unregister_with (broadcast_to_room depth)) (engine_message ∷ payload) members n in
      if is_empty key then some n else sent

  -- `unregisterConn`
  unfoldable pub unregister_conn : ℕ → Net → Pointer → Option Net
  unregister_conn depth n c = unregister_with (broadcast_to_room depth) n c

  -- the first half of `emitWithAck`, with the id that it has taken
  abbrev pub emit_packet : ℕ → Json → Option GoString
  emit_packet ack_id arg =
      build_socket_event_packet json root (some ack_id) (codes "rpc-request") (arg ∷ [])

  abbrev pub enqueue_built : Pointer → Option GoString → Net → Net
  enqueue_built h none n = n
  enqueue_built h (some packet) n = (enqueue_text n h (engine_message ∷ packet)).0

  -- An effect of an event of connection `c`; `ack_id` is the next id of a client that is called. The
  -- error of a single queue is not looked at.
  abbrev pub perform_one : ℕ → ℕ → Pointer → Effect → Net → Option Net
  perform_one depth ack_id c (reply packet) n = some (enqueue_text n c (engine_message ∷ packet)).0
  perform_one depth ack_id c (to_room kind key packet) n = broadcast_to_room depth n kind key packet
  perform_one depth ack_id c (persist snapshot) n = some n
  perform_one depth ack_id c (call h arg) n = some (enqueue_built h (emit_packet ack_id arg) n)

  unfoldable pub perform : ℕ → ℕ → Pointer → List Effect → Net → Option Net
  perform depth ack_id c [] n = some n
  perform depth ack_id c (x ∷ xs) n = perform_one depth ack_id c x n >>= perform depth ack_id c xs
