-- ===== src/SocketIo/Events/Updates.antt =====
-- The five events that change the store and announce the change: a message of a session, and new
-- values of the two registers of a session and of a machine.
use happy_server_lite.Base.{
  ℕ, GoString, codes, is_empty, ◌==◌, Bool, true, false, not, Option, none, some, List, [], ◌∷◌,
  ◌++◌, if◌then◌else◌, inc64,
}
use happy_server_lite.Json.{Json, obj, optional}
use happy_server_lite.Model.{SessionMessage, Machine}
use happy_server_lite.Store.State.{
  Store, Status, success, version_mismatch, not_found, error, Outcome, Result, ok, err,
}
use happy_server_lite.Store.Sessions.{
  get_session, update_session_metadata, update_session_agent_state,
}
use happy_server_lite.Store.Messages.{append_message}
use happy_server_lite.Store.Machines.{update_machine_metadata, update_machine_daemon_state}
use happy_server_lite.SocketIo.Protocol.{
  Codec, EventPacket, build_socket_event_packet, build_socket_ack_packet,
}
use happy_server_lite.SocketIo.Connections.{Conn, user_scoped, session_scoped, is_some}
use happy_server_lite.SocketIo.Events.Bodies.{
  MessageBody, MetadataBody, StateBody, MachineMetadataBody, MachineStateBody, Decoders, RoomKind,
  users, sessions, machines, Effect, reply, to_room, persist, World, Handled, Inputs, first_arg,
}

abbrev pub root : GoString
root = codes "/"

abbrev status_text : Status → GoString
status_text success = codes "success"
status_text version_mismatch = codes "version-mismatch"
status_text not_found = codes "not-found"
status_text error = codes "error"

abbrev pub is_success : Status → Bool
is_success success = true
is_success _ = false

-- `nextUpdateID`, the state part
abbrev pub next_update_id : World → World
next_update_id w = record w { update_seq = inc64 w.update_seq }

-- the effect of writing the snapshot that an operation on machines returns
abbrev pub persisted : Option (List Machine) → List Effect
persisted none = []
persisted (some snapshot) = persist snapshot ∷ []

-- `"version": version, "value": value`
abbrev versioned : ℕ → Json → Json
versioned version value = obj ((codes "version", Json.number version) ∷ (codes "value", value) ∷ [])

module _ {A : Type 0} (field : GoString) (to_json : A → Json) where
  -- The answer to an update of a field.
  abbrev pub update_response : Outcome A → Json
  update_response out = obj (
      (codes "result", Json.string (status_text out.status))
      ∷ (codes "version", Json.number out.version)
      ∷ (field, to_json out.current_value)
      ∷ [])

  -- The body of the update that tells of it.
  abbrev pub change_of_session : GoString → Outcome A → Json
  change_of_session sid out = obj (
      (codes "t", Json.string (codes "update-session"))
      ∷ (codes "sid", Json.string sid)
      ∷ (field, versioned out.version (to_json out.current_value))
      ∷ [])

  abbrev pub change_of_machine : GoString → Outcome A → Json
  change_of_machine machine_id out = obj (
      (codes "t", Json.string (codes "update-machine"))
      ∷ (codes "machineId", Json.string machine_id)
      ∷ (field, versioned out.version (to_json out.current_value))
      ∷ [])

module _ (json : Codec Json) where
  -- `if err == nil { c.enqueueText(...) }`
  abbrev pub reply_built : Option GoString → List Effect
  reply_built none = []
  reply_built (some packet) = reply packet ∷ []

  abbrev pub acknowledge : EventPacket → ℕ → Json → List Effect
  acknowledge pkt id resp = reply_built (build_socket_ack_packet json pkt.namespace id (resp ∷ []))

  -- The update that tells the clients of a change, with the number that it takes.
  abbrev pub update_packet : Inputs → ℕ → Json → Option GoString
  update_packet inp seq body = build_socket_event_packet json root none (codes "update") (
      obj (
        (codes "id", Json.string inp.update_id)
        ∷ (codes "seq", Json.number seq)
        ∷ (codes "createdAt", Json.number inp.now)
        ∷ (codes "body", body)
        ∷ [])
      ∷ [])

  abbrev pub to_rooms : RoomKind → GoString → GoString → Option GoString → List Effect
  to_rooms kind key user_id none = []
  to_rooms kind key user_id (some packet) =
      to_room kind key packet ∷ to_room users user_id packet ∷ []

  -- `nextUpdateID`, the building of the update and its two broadcasts
  unfoldable pub announce : Inputs → Conn → World → RoomKind → GoString → Json → Handled
  announce inp c w kind key body =
      let w' = next_update_id w in
      (w', to_rooms kind key c.user_id (update_packet inp w'.update_seq body))

  -- The end of the four updates: the acknowledgement, and the announcement of a success.
  abbrev pub answer_update :
      Inputs → Conn → EventPacket → ℕ → World → Status → Json → RoomKind → GoString → Json → Handled
  answer_update inp c pkt id w status resp kind key body =
      let ack = acknowledge pkt id resp in
      let (w', told) = announce inp c w kind key body in
      if not (is_success status) then (w, ack) else (w', ack ++ told)

  abbrev pub message_json : SessionMessage → GoString → Json
  message_json msg local_id =
      let common : List (GoString × Json) =
        (codes "id", Json.string msg.id)
        ∷ (codes "seq", Json.number msg.seq)
        ∷ (
          codes "content",
          obj (
              (codes "t", Json.string (codes "encrypted"))
              ∷ (codes "c", Json.string msg.content)
              ∷ []),
        )
        ∷ (codes "createdAt", Json.number msg.created_at)
        ∷ [] in
      if not (is_empty local_id)
      then obj (common ++ (codes "localId", Json.string local_id) ∷ [])
      else obj common

  -- the switch on the client's type
  abbrev pub may_write : World → Conn → GoString → Bool
  may_write w c sid =
      if c.client_type == session_scoped
      then sid == c.session_id
      else if c.client_type == user_scoped
      then is_some (get_session w.store c.user_id sid)
      else false

  abbrev pub appended :
      Inputs → Conn → World → MessageBody → Store × Result SessionMessage → Handled
  appended inp c w body (store, err e) = (w, [])
  appended inp c w body (store, ok msg) =
      announce inp c (record w { store = store }) sessions body.sid
        (obj (
          (codes "t", Json.string (codes "new-message"))
          ∷ (codes "sid", Json.string body.sid)
          ∷ (codes "message", message_json msg body.local_id)
          ∷ []))

  unfoldable pub session_message : Inputs → Conn → World → Option MessageBody → Handled
  session_message inp c w none = (w, [])
  session_message inp c w (some body) =
      let sent =
        appended inp c w body
          (append_message w.store c.user_id body.sid body.message inp.message_id inp.now) in
      if is_empty body.sid then (w, []) else if not (may_write w c body.sid) then (w, []) else sent

  unfoldable pub handle_session_message : Decoders → Inputs → Conn → World → EventPacket → Handled
  unfolding session_message
  handle_session_message decode inp c w pkt =
      session_message inp c w (first_arg decode.message_body pkt)

  unfoldable pub metadata_update :
      Inputs → Conn → World → EventPacket → ℕ → Option MetadataBody → Handled
  metadata_update inp c w pkt id none = (w, [])
  metadata_update inp c w pkt id (some body) =
      let (store, out) =
        update_session_metadata w.store c.user_id body.sid body.expected_version body.metadata
          inp.now in
      let resp = update_response (codes "metadata") Json.string out in
      let change = change_of_session (codes "metadata") Json.string body.sid out in
      let done =
        answer_update inp c pkt id (record w { store = store }) out.status resp sessions body.sid
          change in
      if is_empty body.sid then (w, []) else done

  unfoldable pub handle_session_metadata_update :
      Decoders → Inputs → Conn → World → EventPacket → Handled
  unfolding metadata_update
  handle_session_metadata_update decode inp c w pkt = elim pkt.id [
    | none ↦ (w, [])
    | some id ↦ metadata_update inp c w pkt id (first_arg decode.metadata_body pkt)
  ]

  unfoldable pub state_update : Inputs → Conn → World → EventPacket → ℕ → Option StateBody → Handled
  state_update inp c w pkt id none = (w, [])
  state_update inp c w pkt id (some body) =
      let (store, out) =
        update_session_agent_state w.store c.user_id body.sid body.expected_version body.agent_state
          inp.now in
      let resp = update_response (codes "agentState") optional out in
      let change = change_of_session (codes "agentState") optional body.sid out in
      let done =
        answer_update inp c pkt id (record w { store = store }) out.status resp sessions body.sid
          change in
      if is_empty body.sid then (w, []) else done

  unfoldable pub handle_session_state_update :
      Decoders → Inputs → Conn → World → EventPacket → Handled
  unfolding state_update
  handle_session_state_update decode inp c w pkt = elim pkt.id [
    | none ↦ (w, [])
    | some id ↦ state_update inp c w pkt id (first_arg decode.state_body pkt)
  ]

  -- An update of a machine writes the snapshot before its answer is built.
  abbrev pub after_snapshot : Option (List Machine) → Handled → Handled
  after_snapshot snapshot (w, effects) = (w, persisted snapshot ++ effects)

  unfoldable pub machine_metadata_update :
      Inputs → Conn → World → EventPacket → ℕ → Option MachineMetadataBody → Handled
  machine_metadata_update inp c w pkt id none = (w, [])
  machine_metadata_update inp c w pkt id (some body) =
      let (store, out, snapshot) =
        update_machine_metadata w.store c.user_id body.machine_id body.expected_version
          body.metadata inp.now in
      let resp = update_response (codes "metadata") Json.string out in
      let change = change_of_machine (codes "metadata") Json.string body.machine_id out in
      let done = after_snapshot snapshot (
        answer_update inp c pkt id (record w { store = store }) out.status resp machines
          body.machine_id change) in
      if is_empty body.machine_id then (w, []) else done

  unfoldable pub handle_machine_metadata_update :
      Decoders → Inputs → Conn → World → EventPacket → Handled
  unfolding machine_metadata_update
  handle_machine_metadata_update decode inp c w pkt = elim pkt.id [
    | none ↦ (w, [])
    | some id ↦ machine_metadata_update inp c w pkt id (first_arg decode.machine_metadata_body pkt)
  ]

  unfoldable pub machine_state_update :
      Inputs → Conn → World → EventPacket → ℕ → Option MachineStateBody → Handled
  machine_state_update inp c w pkt id none = (w, [])
  machine_state_update inp c w pkt id (some body) =
      let (store, out, snapshot) =
        update_machine_daemon_state w.store c.user_id body.machine_id body.expected_version
          body.daemon_state inp.now in
      let resp = update_response (codes "daemonState") optional out in
      let change = change_of_machine (codes "daemonState") optional body.machine_id out in
      let done = after_snapshot snapshot (
        answer_update inp c pkt id (record w { store = store }) out.status resp machines
          body.machine_id change) in
      if is_empty body.machine_id then (w, []) else done

  unfoldable pub handle_machine_state_update :
      Decoders → Inputs → Conn → World → EventPacket → Handled
  unfolding machine_state_update
  handle_machine_state_update decode inp c w pkt = elim pkt.id [
    | none ↦ (w, [])
    | some id ↦ machine_state_update inp c w pkt id (first_arg decode.machine_state_body pkt)
  ]
