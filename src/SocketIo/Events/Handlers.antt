-- ===== src/SocketIo/Events/Handlers.antt =====
-- The remaining events, the switch on the event's name, and the ways from a message to it.
use happy_server_lite.Base.{
  ℕ, GoString, codes, is_empty, ◌==◌, Bool, true, false, not, ◌||◌, Option, none, some, List, [],
  ◌∷◌, ◌++◌, ◌⊎◌, inl, inr, if◌then◌else◌, slt, eqb, lookup, insert, delete, get_or, Map,
}
use happy_server_lite.Base.Pointers.{Pointer}
use happy_server_lite.Json.{Json, obj}
use happy_server_lite.Store.Sessions.{set_session_active}
use happy_server_lite.SocketIo.Protocol.{
  Codec, EventPacket, ParseError, parse_socket_event_packet, build_socket_event_packet,
  build_socket_ack_packet,
}
use happy_server_lite.SocketIo.Connections.{Conn, machine_scoped}
use happy_server_lite.SocketIo.Events.Bodies.{
  MethodBody, CallBody, MachineAliveBody, UsageBody, AliveBody, EndBody, Decoders, RoomKind, users,
  sessions, machines, Effect, to_room, call, World, Handled, Inputs, first_arg,
}
use happy_server_lite.SocketIo.Events.Updates.{
  root, reply_built, acknowledge, handle_session_message, handle_session_metadata_update,
  handle_session_state_update, handle_machine_metadata_update, handle_machine_state_update,
}

-- The cases of the switch on `pkt.Event`.
pub data Event : Type 0 where
  ping rpc_register rpc_unregister rpc_call message update_metadata update_state : Event
  machine_update_metadata machine_update_state machine_alive usage_report : Event
  session_alive session_end unknown : Event

unfoldable pub event_of_name : GoString → Event
event_of_name name =
    if name == codes "ping"
    then Event.ping
    else if name == codes "rpc-register"
    then Event.rpc_register
    else if name == codes "rpc-unregister"
    then Event.rpc_unregister
    else if name == codes "rpc-call"
    then Event.rpc_call
    else if name == codes "message"
    then Event.message
    else if name == codes "update-metadata"
    then Event.update_metadata
    else if name == codes "update-state"
    then Event.update_state
    else if name == codes "machine-update-metadata"
    then Event.machine_update_metadata
    else if name == codes "machine-update-state"
    then Event.machine_update_state
    else if name == codes "machine-alive"
    then Event.machine_alive
    else if name == codes "usage-report"
    then Event.usage_report
    else if name == codes "session-alive"
    then Event.session_alive
    else if name == codes "session-end"
    then Event.session_end
    else Event.unknown

-- `body.Time`, or the clock if the client sent no time
abbrev pub time_or : ℕ → ℕ → ℕ
time_or time now = if not (slt 0 time) then now else time

abbrev zero_number : Json
zero_number = Json.number 0

-- the entries of the map that the report passes on
abbrev picked : List GoString → Map Json → List (GoString × Json)
picked [] m = []
picked (k ∷ ks) m = (k, get_or k zero_number m) ∷ picked ks m

abbrev with_methods : World → Map Pointer → World
with_methods w methods = record w { server = record w.server { rpc_by_method = methods } }

-- The result of a call to another client, with the two errors that `handleRPCCall` adds.
unfoldable pub call_result :
    (GoString → Option GoString) → GoString ⊎ List GoString → GoString ⊎ GoString
call_result unmarshal_string (inl e) = inl e
call_result unmarshal_string (inr []) = inl (codes "Empty response")
call_result unmarshal_string (inr (resp ∷ rest)) = elim (unmarshal_string resp) [
  | none ↦ inl (codes "Invalid response")
  | some result ↦ inr result
]

abbrev call_response : GoString ⊎ GoString → Json
call_response (inl e) = obj ((codes "ok", Json.bool false) ∷ (codes "error", Json.string e) ∷ [])
call_response (inr result) =
    obj ((codes "ok", Json.bool true) ∷ (codes "result", Json.string result) ∷ [])

module _ (json : Codec Json) where
  abbrev ephemeral : List (GoString × Json) → Option GoString
  ephemeral body = build_socket_event_packet json root none (codes "ephemeral") (obj body ∷ [])

  -- two broadcasts of a packet, if it was built
  abbrev pub told_both : RoomKind → GoString → RoomKind → GoString → Option GoString → List Effect
  told_both kind key kind' key' none = []
  told_both kind key kind' key' (some packet) =
      to_room kind key packet ∷ to_room kind' key' packet ∷ []

  unfoldable pub handle_ping : World → EventPacket → Handled
  handle_ping w pkt = elim pkt.id [
    | none ↦ (w, [])
    | some id ↦ (w, reply_built json (build_socket_ack_packet json pkt.namespace id []))
  ]

  abbrev method_event : EventPacket → GoString → GoString → List Effect
  method_event pkt event method = reply_built json (
      build_socket_event_packet json pkt.namespace none event
        (obj ((codes "method", Json.string method) ∷ []) ∷ []))

  unfoldable pub register_method : Pointer → World → EventPacket → Option MethodBody → Handled
  register_method c w pkt none = (w, [])
  register_method c w pkt (some body) = if is_empty body.method then (w, []) else (
    with_methods w (insert body.method c w.server.rpc_by_method),
    method_event pkt (codes "rpc-registered") body.method,
  )

  -- `ok && owner == c`
  abbrev owned_by : Pointer → Option Pointer → Bool
  owned_by c none = false
  owned_by c (some owner) = eqb owner c

  unfoldable pub unregister_method : Pointer → World → EventPacket → Option MethodBody → Handled
  unregister_method c w pkt none = (w, [])
  unregister_method c w pkt (some body) =
      let methods = w.server.rpc_by_method in
      let w' =
        if owned_by c (lookup body.method methods)
        then with_methods w (delete body.method methods)
        else w in
      if is_empty body.method
      then (w, [])
      else (w', method_event pkt (codes "rpc-unregistered") body.method)

  -- The packet to the client that registered the method, if one did, and the answer.
  abbrev pub call_of :
      Inputs → GoString → GoString → Option Pointer → List Effect × (GoString ⊎ GoString)
  call_of inp method params none = ([], inl (codes "Method not found"))
  call_of inp method params (some h) = (
    call h (obj ((codes "method", Json.string method) ∷ (codes "params", Json.string params) ∷ []))
        ∷ [],
    call_result json.unmarshal_string inp.answer,
  )

  unfoldable pub handle_rpc_call :
      Inputs → World → GoString → GoString → List Effect × (GoString ⊎ GoString)
  unfolding call_result
  handle_rpc_call inp w method params =
      call_of inp method params (lookup method w.server.rpc_by_method)

  unfoldable pub call_method : Inputs → World → EventPacket → ℕ → Option CallBody → Handled
  unfolding handle_rpc_call
  call_method inp w pkt id none = (w, [])
  call_method inp w pkt id (some body) =
      let (called, result) = handle_rpc_call inp w body.method body.params in
      if is_empty body.method
      then (w, [])
      else (w, called ++ acknowledge json pkt id (call_response result))

  unfoldable pub machine_is_alive : Inputs → Conn → World → Option MachineAliveBody → Handled
  machine_is_alive inp c w none = (w, [])
  machine_is_alive inp c w (some body) =
      let machine_id = if is_empty body.machine_id then c.machine_id else body.machine_id in
      let packet = ephemeral (
        (codes "type", Json.string (codes "machine-activity"))
        ∷ (codes "id", Json.string machine_id)
        ∷ (codes "active", Json.bool true)
        ∷ (codes "activeAt", Json.number (time_or body.time inp.now))
        ∷ []) in
      if not (c.client_type == machine_scoped)
        || is_empty machine_id
        || not (machine_id == c.machine_id)
      then (w, [])
      else (w, told_both machines machine_id users c.user_id packet)

  unfoldable pub report_usage : Inputs → Conn → World → Option UsageBody → Handled
  report_usage inp c w none = (w, [])
  report_usage inp c w (some body) =
      let tokens =
        picked
          (codes "total"
            ∷ codes "input"
            ∷ codes "output"
            ∷ codes "cache_creation"
            ∷ codes "cache_read"
            ∷ [])
          body.tokens in
      let cost = picked (codes "total" ∷ codes "input" ∷ codes "output" ∷ []) body.cost in
      let packet = ephemeral (
        (codes "type", Json.string (codes "usage"))
        ∷ (codes "id", Json.string body.session_id)
        ∷ (codes "key", Json.string body.key)
        ∷ (codes "timestamp", Json.number inp.now)
        ∷ (codes "tokens", obj tokens)
        ∷ (codes "cost", obj cost)
        ∷ []) in
      if is_empty body.key || is_empty body.session_id
      then (w, [])
      else (w, told_both users c.user_id sessions body.session_id packet)

  -- `"type": "activity"`
  abbrev activity : GoString → Bool → ℕ → Bool → Option GoString
  activity sid active active_at thinking = ephemeral (
      (codes "type", Json.string (codes "activity"))
      ∷ (codes "id", Json.string sid)
      ∷ (codes "active", Json.bool active)
      ∷ (codes "activeAt", Json.number active_at)
      ∷ (codes "thinking", Json.bool thinking)
      ∷ [])

  -- The result of `SetSessionActive` is not looked at.
  unfoldable pub session_is_alive : Inputs → Conn → World → Option AliveBody → Handled
  session_is_alive inp c w none = (w, [])
  session_is_alive inp c w (some body) =
      let active_at = time_or body.time inp.now in
      let (store, found) = set_session_active w.store c.user_id body.sid true active_at inp.later in
      let packet = activity body.sid true active_at body.thinking in
      if is_empty body.sid
      then (w, [])
      else (record w { store = store }, told_both users c.user_id sessions body.sid packet)

  unfoldable pub session_has_ended : Inputs → Conn → World → Option EndBody → Handled
  session_has_ended inp c w none = (w, [])
  session_has_ended inp c w (some body) =
      let (store, found) = set_session_active w.store c.user_id body.sid false 0 inp.now in
      let packet = activity body.sid false inp.now false in
      if is_empty body.sid
      then (w, [])
      else (record w { store = store }, told_both users c.user_id sessions body.sid packet)

  unfoldable pub handle_rpc_event : Decoders → Inputs → World → EventPacket → Handled
  unfolding call_method
  handle_rpc_event decode inp w pkt = elim pkt.id [
    | none ↦ (w, [])
    | some id ↦ call_method inp w pkt id (first_arg decode.call_body pkt)
  ]

  module _ (decode : Decoders) (inp : Inputs) (c : Pointer) (w : World) where
    -- One case of the switch.
    unfoldable pub dispatch : Event → EventPacket → Handled
    unfolding handle_ping register_method unregister_method handle_rpc_event machine_is_alive
        report_usage session_is_alive session_has_ended
    dispatch Event.ping pkt = handle_ping w pkt
    dispatch Event.rpc_register pkt = register_method c w pkt (first_arg decode.method_body pkt)
    dispatch Event.rpc_unregister pkt = unregister_method c w pkt (first_arg decode.method_body pkt)
    dispatch Event.rpc_call pkt = handle_rpc_event decode inp w pkt
    dispatch Event.message pkt = handle_session_message json decode inp (w.server.conn_of c) w pkt
    dispatch Event.update_metadata pkt =
        handle_session_metadata_update json decode inp (w.server.conn_of c) w pkt
    dispatch Event.update_state pkt =
        handle_session_state_update json decode inp (w.server.conn_of c) w pkt
    dispatch Event.machine_update_metadata pkt =
        handle_machine_metadata_update json decode inp (w.server.conn_of c) w pkt
    dispatch Event.machine_update_state pkt =
        handle_machine_state_update json decode inp (w.server.conn_of c) w pkt
    dispatch Event.machine_alive pkt =
        machine_is_alive inp (w.server.conn_of c) w (first_arg decode.machine_alive_body pkt)
    dispatch Event.usage_report pkt =
        report_usage inp (w.server.conn_of c) w (first_arg decode.usage_body pkt)
    dispatch Event.session_alive pkt =
        session_is_alive inp (w.server.conn_of c) w (first_arg decode.alive_body pkt)
    dispatch Event.session_end pkt =
        session_has_ended inp (w.server.conn_of c) w (first_arg decode.end_body pkt)
    dispatch Event.unknown pkt = (w, [])

    abbrev pub parsed_event : ParseError ⊎ EventPacket → Handled
    parsed_event (inl e) = (w, [])
    parsed_event (inr pkt) = dispatch (event_of_name pkt.event) pkt

    unfoldable pub handle_event : GoString → Handled
    handle_event payload =
        let done = parsed_event (parse_socket_event_packet json payload) in
        if not (w.server.conn_of c).connected then (w, []) else done
