-- ===== src/SocketIo/Events/Kept.antt =====
-- What the events of one user's connection leave as it is: all that another user can read.
use happy_server_lite.Base.{
  ℕ, GoString, is_empty, ◌≡◌, ◌≢◌, Bool, true, false, not, ◌||◌, Option, none, some, ◌⊎◌, inl, inr,
  [], List, arith, sym, refl, subst, if◌then◌else◌, ◌==◌,
}
use happy_server_lite.Base.Pointers.{Pointer}
use happy_server_lite.Json.{Json}
use happy_server_lite.Model.{SessionMessage, Machine}
use happy_server_lite.Store.State.{Store, Status, Result, ok, err}
use happy_server_lite.Store.Isolation.{Untouched, same_store-Untouched}
use happy_server_lite.Store.Isolation.Sessions.{
  update_session_metadata-Untouched, update_session_agent_state-Untouched,
  set_session_active-Untouched, append_message-Untouched,
}
use happy_server_lite.Store.Isolation.Machines.{
  update_machine_metadata-Untouched, update_machine_daemon_state-Untouched,
}
use happy_server_lite.Store.Messages.{append_message}
use happy_server_lite.SocketIo.Protocol.{Codec, EventPacket, ParseError, parse_socket_event_packet}
use happy_server_lite.SocketIo.Connections.{Conn, machine_scoped}
use happy_server_lite.SocketIo.Events.Bodies.{
  MessageBody, MetadataBody, StateBody, MachineMetadataBody, MachineStateBody, MethodBody, CallBody,
  MachineAliveBody, UsageBody, AliveBody, EndBody, Decoders, RoomKind, World, Handled, Inputs,
}
use happy_server_lite.SocketIo.Events.Updates.{
  announce, answer_update, appended, session_message, handle_session_message, metadata_update,
  handle_session_metadata_update, state_update, handle_session_state_update,
  machine_metadata_update, handle_machine_metadata_update, machine_state_update,
  handle_machine_state_update, may_write, after_snapshot, is_success,
}
use happy_server_lite.SocketIo.Events.Handlers.{
  Event, event_of_name, handle_ping, register_method, unregister_method, call_method,
  handle_rpc_event, machine_is_alive, report_usage, session_is_alive, session_has_ended, dispatch,
  parsed_event, time_or, handle_event,
}

-- The store after a handler, to the user `v`.
pub record Keeps (v : GoString) (w : World) (out : Handled) : Type 0 where
  pub kept : Untouched v w.store out.0.store

if-Keeps :
    (v : GoString) (w : World) (test : Bool) (x y : Handled)
    → Keeps v w x
    → Keeps v w y
    → Keeps v w (if test then x else y)
if-Keeps v w true x y h k = h
if-Keeps v w false x y h k = k

module _ (json : Codec Json) (inp : Inputs) (c : Conn) (v : GoString) (other : c.user_id ≢ v)
    (w : World) where
  same_store-Keeps : (out : Handled) → out.0.store ≡ w.store → Keeps v w out
  same_store-Keeps out e = record {
    kept = subst (Untouched v w.store) (sym e) (same_store-Untouched v w.store);
  }

  nothing-Keeps : Keeps v w (w, [])
  nothing-Keeps = same_store-Keeps (w, []) refl

  answer_update-Keeps :
      (pkt : EventPacket) (id : ℕ) (store : Store) (status : Status) (resp : Json) (kind : RoomKind)
      (key : GoString) (body : Json)
      → Untouched v w.store store
      → Keeps v w
          (answer_update json inp c pkt id (record w { store = store }) status resp kind key body)
  unfolding announce
  answer_update-Keeps pkt id store status resp kind key body h =
      if-Keeps v w (not (is_success status)) _ _ (record { kept = h }) (record { kept = h })

  after_snapshot-Keeps :
      (snapshot : Option (List Machine)) (out : Handled)
      → Keeps v w out
      → Keeps v w (after_snapshot json snapshot out)
  after_snapshot-Keeps snapshot out h = record { kept = h.kept }

  appended-Keeps :
      (body : MessageBody) (out : Store × Result SessionMessage)
      → Untouched v w.store out.0
      → Keeps v w (appended json inp c w body out)
  unfolding announce
  appended-Keeps body (store, err e) h = nothing-Keeps
  appended-Keeps body (store, ok msg) h = record { kept = h }

  session_message-Keeps : (b : Option MessageBody) → Keeps v w (session_message json inp c w b)
  unfolding session_message
  session_message-Keeps none = nothing-Keeps
  session_message-Keeps (some body) = if-Keeps v w (is_empty body.sid) _ _ nothing-Keeps (
      if-Keeps v w (not (may_write json w c body.sid)) _ _ nothing-Keeps (
        appended-Keeps body
          (append_message w.store c.user_id body.sid body.message inp.message_id inp.now)
          (append_message-Untouched c.user_id v other w.store body.sid body.message inp.message_id
            inp.now)))

  metadata_update-Keeps :
      (pkt : EventPacket) (id : ℕ) (b : Option MetadataBody)
      → Keeps v w (metadata_update json inp c w pkt id b)
  unfolding metadata_update
  metadata_update-Keeps pkt id none = nothing-Keeps
  metadata_update-Keeps pkt id (some body) = if-Keeps v w (is_empty body.sid) _ _ nothing-Keeps (
      answer_update-Keeps pkt id _ _ _ _ _ _ (
        update_session_metadata-Untouched c.user_id v other w.store body.sid body.expected_version
          body.metadata inp.now))

  state_update-Keeps :
      (pkt : EventPacket) (id : ℕ) (b : Option StateBody)
      → Keeps v w (state_update json inp c w pkt id b)
  unfolding state_update
  state_update-Keeps pkt id none = nothing-Keeps
  state_update-Keeps pkt id (some body) = if-Keeps v w (is_empty body.sid) _ _ nothing-Keeps (
      answer_update-Keeps pkt id _ _ _ _ _ _ (
        update_session_agent_state-Untouched c.user_id v other w.store body.sid
          body.expected_version body.agent_state inp.now))

  machine_metadata_update-Keeps :
      (pkt : EventPacket) (id : ℕ) (b : Option MachineMetadataBody)
      → Keeps v w (machine_metadata_update json inp c w pkt id b)
  unfolding machine_metadata_update
  machine_metadata_update-Keeps pkt id none = nothing-Keeps
  machine_metadata_update-Keeps pkt id (some body) =
      if-Keeps v w (is_empty body.machine_id) _ _ nothing-Keeps (
        after_snapshot-Keeps _ _ (
          answer_update-Keeps pkt id _ _ _ _ _ _ (
            update_machine_metadata-Untouched c.user_id v other w.store body.machine_id
              body.expected_version body.metadata inp.now)))

  machine_state_update-Keeps :
      (pkt : EventPacket) (id : ℕ) (b : Option MachineStateBody)
      → Keeps v w (machine_state_update json inp c w pkt id b)
  unfolding machine_state_update
  machine_state_update-Keeps pkt id none = nothing-Keeps
  machine_state_update-Keeps pkt id (some body) =
      if-Keeps v w (is_empty body.machine_id) _ _ nothing-Keeps (
        after_snapshot-Keeps _ _ (
          answer_update-Keeps pkt id _ _ _ _ _ _ (
            update_machine_daemon_state-Untouched c.user_id v other w.store body.machine_id
              body.expected_version body.daemon_state inp.now)))

  session_is_alive-Keeps : (b : Option AliveBody) → Keeps v w (session_is_alive json inp c w b)
  unfolding session_is_alive
  session_is_alive-Keeps none = nothing-Keeps
  session_is_alive-Keeps (some body) = if-Keeps v w (is_empty body.sid) _ _ nothing-Keeps (record {
    kept =
        set_session_active-Untouched c.user_id v other w.store body.sid true
          (time_or body.time inp.now) inp.later;
  })

  session_has_ended-Keeps : (b : Option EndBody) → Keeps v w (session_has_ended json inp c w b)
  unfolding session_has_ended
  session_has_ended-Keeps none = nothing-Keeps
  session_has_ended-Keeps (some body) = if-Keeps v w (is_empty body.sid) _ _ nothing-Keeps (record {
    kept = set_session_active-Untouched c.user_id v other w.store body.sid false 0 inp.now;
  })

  machine_is_alive-Keeps :
      (b : Option MachineAliveBody) → Keeps v w (machine_is_alive json inp c w b)
  unfolding machine_is_alive
  machine_is_alive-Keeps none = nothing-Keeps
  machine_is_alive-Keeps (some body) =
      let machine_id = if is_empty body.machine_id then c.machine_id else body.machine_id in
      if-Keeps v w
        (not (c.client_type == machine_scoped)
          || is_empty machine_id
          || not (machine_id == c.machine_id))
        _ _ nothing-Keeps (same_store-Keeps _ refl)

  report_usage-Keeps : (b : Option UsageBody) → Keeps v w (report_usage json inp c w b)
  unfolding report_usage
  report_usage-Keeps none = nothing-Keeps
  report_usage-Keeps (some body) =
      if-Keeps v w (is_empty body.key || is_empty body.session_id) _ _ nothing-Keeps
        (same_store-Keeps _ refl)

  ping-Keeps : (pkt : EventPacket) → Keeps v w (handle_ping json w pkt)
  unfolding handle_ping
  ping-Keeps pkt = same_store-Keeps _ (ground arith)

  register_method-Keeps :
      (p : Pointer) (pkt : EventPacket) (b : Option MethodBody)
      → Keeps v w (register_method json p w pkt b)
  unfolding register_method
  register_method-Keeps p pkt none = nothing-Keeps
  register_method-Keeps p pkt (some body) = same_store-Keeps _ (ground arith)

  unregister_method-Keeps :
      (p : Pointer) (pkt : EventPacket) (b : Option MethodBody)
      → Keeps v w (unregister_method json p w pkt b)
  unfolding unregister_method
  unregister_method-Keeps p pkt none = nothing-Keeps
  unregister_method-Keeps p pkt (some body) = same_store-Keeps _ (ground arith)

  call_method-Keeps :
      (pkt : EventPacket) (id : ℕ) (b : Option CallBody)
      → Keeps v w (call_method json inp w pkt id b)
  unfolding call_method
  call_method-Keeps pkt id none = nothing-Keeps
  call_method-Keeps pkt id (some body) =
      if-Keeps v w (is_empty body.method) _ _ nothing-Keeps (same_store-Keeps _ refl)

  -- A handler that looks at the packet's id first.
  with_id-Keeps :
      (id : Option ℕ) (f : ℕ → Handled)
      → ((i : ℕ) → Keeps v w (f i))
      → Keeps v w (elim id [ none ↦ (w, []) | some i ↦ f i ])
  with_id-Keeps none f h = nothing-Keeps
  with_id-Keeps (some i) f h = h i

  dispatch-Keeps :
      (decode : Decoders) (p : Pointer) (e : Event) (pkt : EventPacket)
      → w.server.conn_of p ≡ c
      → Keeps v w (dispatch json decode inp p w e pkt)
  unfolding dispatch handle_session_message handle_session_metadata_update
      handle_session_state_update handle_machine_metadata_update handle_machine_state_update
      handle_rpc_event
  dispatch-Keeps decode p Event.ping pkt h = ping-Keeps pkt
  dispatch-Keeps decode p Event.rpc_register pkt h = register_method-Keeps p pkt _
  dispatch-Keeps decode p Event.rpc_unregister pkt h = unregister_method-Keeps p pkt _
  dispatch-Keeps decode p Event.rpc_call pkt h =
      with_id-Keeps pkt.id _ (λ i. call_method-Keeps pkt i _)
  dispatch-Keeps decode p Event.message pkt h = rw h (session_message-Keeps _)
  dispatch-Keeps decode p Event.update_metadata pkt h =
      rw h (with_id-Keeps pkt.id _ (λ i. metadata_update-Keeps pkt i _))
  dispatch-Keeps decode p Event.update_state pkt h =
      rw h (with_id-Keeps pkt.id _ (λ i. state_update-Keeps pkt i _))
  dispatch-Keeps decode p Event.machine_update_metadata pkt h =
      rw h (with_id-Keeps pkt.id _ (λ i. machine_metadata_update-Keeps pkt i _))
  dispatch-Keeps decode p Event.machine_update_state pkt h =
      rw h (with_id-Keeps pkt.id _ (λ i. machine_state_update-Keeps pkt i _))
  dispatch-Keeps decode p Event.machine_alive pkt h = rw h (machine_is_alive-Keeps _)
  dispatch-Keeps decode p Event.usage_report pkt h = rw h (report_usage-Keeps _)
  dispatch-Keeps decode p Event.session_alive pkt h = rw h (session_is_alive-Keeps _)
  dispatch-Keeps decode p Event.session_end pkt h = rw h (session_has_ended-Keeps _)
  dispatch-Keeps decode p Event.unknown pkt h = nothing-Keeps

  parsed_event-Keeps :
      (decode : Decoders) (p : Pointer) (pkt : ParseError ⊎ EventPacket)
      → w.server.conn_of p ≡ c
      → Keeps v w (parsed_event json decode inp p w pkt)
  parsed_event-Keeps decode p (inl e) h = nothing-Keeps
  parsed_event-Keeps decode p (inr pkt) h = dispatch-Keeps decode p (event_of_name pkt.event) pkt h

-- Whatever event a connection sends, all that a user other than its own can read of the store stays as
-- it was: sessions, messages, machines, artifacts and settings.
pub handle_event-Untouched :
    (json : Codec Json) (decode : Decoders) (inp : Inputs) (w : World) (p : Pointer)
    (payload v : GoString)
    → (w.server.conn_of p).user_id ≢ v
    → Untouched v w.store (handle_event json decode inp p w payload).0.store
unfolding handle_event
handle_event-Untouched json decode inp w p payload v other =
    let c = w.server.conn_of p in
    let out =
      parsed_event-Keeps json inp c v other w decode p (parse_socket_event_packet json payload)
        refl in
    let all = if-Keeps v w (not c.connected) _ _ (nothing-Keeps json inp c v other w) out in
    all.kept
