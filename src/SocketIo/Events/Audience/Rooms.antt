-- ===== src/SocketIo/Events/Audience/Rooms.antt =====
-- Each event of a connection, and the rooms it is told to.
use happy_server_lite.Base.{
  ℕ, GoString, is_empty, ◌≡◌, refl, true, false, not, ◌||◌, Option, none, some, inl, inr, [],
  if◌then◌else◌, ◌==◌, ==_iff, arith, All, Option-cases, lookup,
}
use happy_server_lite.Base.Pointers.{Pointer}
use happy_server_lite.Json.{Json}
use happy_server_lite.Model.{SessionMessage}
use happy_server_lite.Store.State.{Store, Result, ok, err}
use happy_server_lite.Store.Messages.{append_message}
use happy_server_lite.Store.Sessions.{
  get_session, update_session_metadata, update_session_agent_state,
}
use happy_server_lite.Store.Machines.{
  get_machine, update_machine_metadata, update_machine_daemon_state,
}
use happy_server_lite.SocketIo.Protocol.{Codec, EventPacket}
use happy_server_lite.SocketIo.Connections.{Conn, machine_scoped}
use happy_server_lite.SocketIo.Events.Bodies.{
  MessageBody, MetadataBody, StateBody, MachineMetadataBody, MachineStateBody, MethodBody, CallBody,
  MachineAliveBody, UsageBody, AliveBody, EndBody, Decoders, World, Handled, Inputs,
}
use happy_server_lite.SocketIo.Events.Updates.{
  announce, appended, session_message, handle_session_message, metadata_update,
  handle_session_metadata_update, state_update, handle_session_state_update,
  machine_metadata_update, handle_machine_metadata_update, machine_state_update,
  handle_machine_state_update, may_write, is_success,
}
use happy_server_lite.SocketIo.Events.Handlers.{
  Event, handle_ping, register_method, unregister_method, handle_rpc_call, call_of, call_method,
  handle_rpc_event, machine_is_alive, report_usage, session_is_alive, session_has_ended, dispatch,
}
use happy_server_lite.SocketIo.Events.Audience.{
  is_unchecked, IsReadable, IsOwnMachine, Fits, Contained, All-append, nothing-Contained,
  if-Contained, reply_built-each, to_rooms-sessions, to_rooms-machines, told_both-sessions,
  told_both-machines, answer_update-Contained, after_snapshot-Contained,
}

module _ (json : Codec Json) (inp : Inputs) (c : Conn) (w : World) where
  appended-IsReadable :
      (body : MessageBody) (msg : SessionMessage)
      → (append_message w.store c.user_id body.sid body.message inp.message_id inp.now).1 ≡ ok msg
      → IsReadable w.store c body.sid
  unfolding append_message
  appended-IsReadable body msg h = elim (Option-cases (get_session w.store c.user_id body.sid)) [
    | inl e ↦ absurd (ground (arith, h, e))
    | inr (sess, e) ↦ (sess, e)
  ]

  metadata-IsReadable :
      (sid : GoString) (expected : ℕ) (metadata : GoString)
      → is_success
          (update_session_metadata w.store c.user_id sid expected metadata inp.now).1.status
        ≡ true
      → IsReadable w.store c sid
  unfolding update_session_metadata
  metadata-IsReadable sid expected metadata h =
      elim (Option-cases (get_session w.store c.user_id sid)) [
        | inl e ↦ absurd (ground (arith, h, e))
        | inr (sess, e) ↦ (sess, e)
      ]

  state-IsReadable :
      (sid : GoString) (expected : ℕ) (value : Option GoString)
      → is_success
          (update_session_agent_state w.store c.user_id sid expected value inp.now).1.status
        ≡ true
      → IsReadable w.store c sid
  unfolding update_session_agent_state
  state-IsReadable sid expected value h = elim (Option-cases (get_session w.store c.user_id sid)) [
    | inl e ↦ absurd (ground (arith, h, e))
    | inr (sess, e) ↦ (sess, e)
  ]

  machine_metadata-own :
      (mid : GoString) (expected : ℕ) (metadata : GoString)
      → is_success
          (update_machine_metadata w.store c.user_id mid expected metadata inp.now).1.status
        ≡ true
      → IsOwnMachine w.store c mid
  unfolding update_machine_metadata
  machine_metadata-own mid expected metadata h =
      elim (Option-cases (get_machine w.store c.user_id mid)) [
        | inl e ↦ absurd (ground (arith, h, e))
        | inr (m, e) ↦ inr (m, e)
      ]

  machine_state-own :
      (mid : GoString) (expected : ℕ) (value : Option GoString)
      → is_success
          (update_machine_daemon_state w.store c.user_id mid expected value inp.now).1.status
        ≡ true
      → IsOwnMachine w.store c mid
  unfolding update_machine_daemon_state
  machine_state-own mid expected value h = elim (Option-cases (get_machine w.store c.user_id mid)) [
    | inl e ↦ absurd (ground (arith, h, e))
    | inr (m, e) ↦ inr (m, e)
  ]

  appended-Contained :
      (body : MessageBody) (out : Store × Result SessionMessage)
      → ((msg : SessionMessage) → out.1 ≡ ok msg → IsReadable w.store c body.sid)
      → Contained w c false (appended json inp c w body out)
  unfolding announce
  appended-Contained body (store, err e) h = nothing-Contained json inp c w false w
  appended-Contained body (store, ok msg) h = record {
    each = to_rooms-sessions json inp c w false body.sid _ (inr (h msg refl));
  }

  session_message-Contained :
      (b : Option MessageBody) → Contained w c false (session_message json inp c w b)
  unfolding session_message
  session_message-Contained none = nothing-Contained json inp c w false w
  session_message-Contained (some body) =
      if-Contained json inp c w false (is_empty body.sid) _ _
        (λ e. nothing-Contained json inp c w false w)
        (λ e.
          if-Contained json inp c w false (not (may_write json w c body.sid)) _ _
            (λ e. nothing-Contained json inp c w false w)
            (λ e.
              appended-Contained body
                (append_message w.store c.user_id body.sid body.message inp.message_id inp.now)
                (appended-IsReadable body)))

  metadata_update-Contained :
      (pkt : EventPacket) (id : ℕ) (b : Option MetadataBody)
      → Contained w c false (metadata_update json inp c w pkt id b)
  unfolding metadata_update
  metadata_update-Contained pkt id none = nothing-Contained json inp c w false w
  metadata_update-Contained pkt id (some body) =
      if-Contained json inp c w false (is_empty body.sid) _ _
        (λ e. nothing-Contained json inp c w false w)
        (λ e. answer_update-Contained json inp c w false pkt id _ _ _ _ _ _ (λ packet h.
          to_rooms-sessions json inp c w false body.sid packet
            (inr (metadata-IsReadable body.sid body.expected_version body.metadata h))))

  state_update-Contained :
      (pkt : EventPacket) (id : ℕ) (b : Option StateBody)
      → Contained w c false (state_update json inp c w pkt id b)
  unfolding state_update
  state_update-Contained pkt id none = nothing-Contained json inp c w false w
  state_update-Contained pkt id (some body) =
      if-Contained json inp c w false (is_empty body.sid) _ _
        (λ e. nothing-Contained json inp c w false w)
        (λ e. answer_update-Contained json inp c w false pkt id _ _ _ _ _ _ (λ packet h.
          to_rooms-sessions json inp c w false body.sid packet
            (inr (state-IsReadable body.sid body.expected_version body.agent_state h))))

  machine_metadata_update-Contained :
      (pkt : EventPacket) (id : ℕ) (b : Option MachineMetadataBody)
      → Contained w c false (machine_metadata_update json inp c w pkt id b)
  unfolding machine_metadata_update
  machine_metadata_update-Contained pkt id none = nothing-Contained json inp c w false w
  machine_metadata_update-Contained pkt id (some body) =
      if-Contained json inp c w false (is_empty body.machine_id) _ _
        (λ e. nothing-Contained json inp c w false w)
        (λ e. after_snapshot-Contained json inp c w false _ _ (
          answer_update-Contained json inp c w false pkt id _ _ _ _ _ _ (λ packet h.
            to_rooms-machines json inp c w false body.machine_id packet
              (machine_metadata-own body.machine_id body.expected_version body.metadata h))))

  machine_state_update-Contained :
      (pkt : EventPacket) (id : ℕ) (b : Option MachineStateBody)
      → Contained w c false (machine_state_update json inp c w pkt id b)
  unfolding machine_state_update
  machine_state_update-Contained pkt id none = nothing-Contained json inp c w false w
  machine_state_update-Contained pkt id (some body) =
      if-Contained json inp c w false (is_empty body.machine_id) _ _
        (λ e. nothing-Contained json inp c w false w)
        (λ e. after_snapshot-Contained json inp c w false _ _ (
          answer_update-Contained json inp c w false pkt id _ _ _ _ _ _ (λ packet h.
            to_rooms-machines json inp c w false body.machine_id packet
              (machine_state-own body.machine_id body.expected_version body.daemon_state h))))

  machine_is_alive-Contained :
      (b : Option MachineAliveBody) → Contained w c false (machine_is_alive json inp c w b)
  unfolding machine_is_alive
  machine_is_alive-Contained none = nothing-Contained json inp c w false w
  machine_is_alive-Contained (some body) =
      let machine_id = if is_empty body.machine_id then c.machine_id else body.machine_id in
      if-Contained json inp c w false
        (not (c.client_type == machine_scoped)
          || is_empty machine_id
          || not (machine_id == c.machine_id))
        _ _ (λ e. nothing-Contained json inp c w false w)
        (λ e. record {
          each =
              told_both-machines json inp c w false machine_id _
                (inl (ground (arith, e, ==_iff machine_id c.machine_id)));
        })

  report_usage-Contained : (b : Option UsageBody) → Contained w c true (report_usage json inp c w b)
  unfolding report_usage
  report_usage-Contained none = nothing-Contained json inp c w true w
  report_usage-Contained (some body) =
      if-Contained json inp c w true (is_empty body.key || is_empty body.session_id) _ _
        (λ e. nothing-Contained json inp c w true w)
        (λ e. record { each = told_both-sessions json inp c w true body.session_id _ (inl refl) })

  session_is_alive-Contained :
      (b : Option AliveBody) → Contained w c true (session_is_alive json inp c w b)
  unfolding session_is_alive
  session_is_alive-Contained none = nothing-Contained json inp c w true w
  session_is_alive-Contained (some body) =
      if-Contained json inp c w true (is_empty body.sid) _ _
        (λ e. nothing-Contained json inp c w true w)
        (λ e. record { each = told_both-sessions json inp c w true body.sid _ (inl refl) })

  session_has_ended-Contained :
      (b : Option EndBody) → Contained w c true (session_has_ended json inp c w b)
  unfolding session_has_ended
  session_has_ended-Contained none = nothing-Contained json inp c w true w
  session_has_ended-Contained (some body) =
      if-Contained json inp c w true (is_empty body.sid) _ _
        (λ e. nothing-Contained json inp c w true w)
        (λ e. record { each = told_both-sessions json inp c w true body.sid _ (inl refl) })

  register_method-Contained :
      (p : Pointer) (pkt : EventPacket) (b : Option MethodBody)
      → Contained w c false (register_method json p w pkt b)
  unfolding register_method
  register_method-Contained p pkt none = nothing-Contained json inp c w false w
  register_method-Contained p pkt (some body) =
      if-Contained json inp c w false (is_empty body.method) _ _
        (λ e. nothing-Contained json inp c w false w)
        (λ e. record { each = reply_built-each json inp c w false _ })

  unregister_method-Contained :
      (p : Pointer) (pkt : EventPacket) (b : Option MethodBody)
      → Contained w c false (unregister_method json p w pkt b)
  unfolding unregister_method
  unregister_method-Contained p pkt none = nothing-Contained json inp c w false w
  unregister_method-Contained p pkt (some body) =
      if-Contained json inp c w false (is_empty body.method) _ _
        (λ e. nothing-Contained json inp c w false w)
        (λ e. record { each = reply_built-each json inp c w false _ })

  call_of-each :
      (method params : GoString) (h : Option Pointer)
      → All (Fits w.store c false) (call_of json inp method params h).0
  call_of-each method params none = tt
  call_of-each method params (some h) = (tt, tt)

  rpc_call-each :
      (method params : GoString)
      → All (Fits w.store c false) (handle_rpc_call json inp w method params).0
  unfolding handle_rpc_call
  rpc_call-each method params = call_of-each method params (lookup method w.server.rpc_by_method)

  call_method-Contained :
      (pkt : EventPacket) (id : ℕ) (b : Option CallBody)
      → Contained w c false (call_method json inp w pkt id b)
  unfolding call_method
  call_method-Contained pkt id none = nothing-Contained json inp c w false w
  call_method-Contained pkt id (some body) =
      if-Contained json inp c w false (is_empty body.method) _ _
        (λ e. nothing-Contained json inp c w false w)
        (λ e. record {
          each =
              All-append _ (handle_rpc_call json inp w body.method body.params).0 _
                (rpc_call-each body.method body.params) (reply_built-each json inp c w false _);
        })

  with_id-Contained :
      (id : Option ℕ) (f : ℕ → Handled)
      → ((i : ℕ) → Contained w c false (f i))
      → Contained w c false (elim id [ none ↦ (w, []) | some i ↦ f i ])
  with_id-Contained none f h = nothing-Contained json inp c w false w
  with_id-Contained (some i) f h = h i

  dispatch-Contained :
      (decode : Decoders) (p : Pointer) (e : Event) (pkt : EventPacket)
      → w.server.conn_of p ≡ c
      → Contained w c (is_unchecked e) (dispatch json decode inp p w e pkt)
  unfolding dispatch handle_session_message handle_session_metadata_update
      handle_session_state_update handle_machine_metadata_update handle_machine_state_update
      handle_rpc_event handle_ping
  dispatch-Contained decode p Event.ping pkt h =
      with_id-Contained pkt.id _ (λ i. record { each = reply_built-each json inp c w false _ })
  dispatch-Contained decode p Event.rpc_register pkt h = register_method-Contained p pkt _
  dispatch-Contained decode p Event.rpc_unregister pkt h = unregister_method-Contained p pkt _
  dispatch-Contained decode p Event.rpc_call pkt h =
      with_id-Contained pkt.id _ (λ i. call_method-Contained pkt i _)
  dispatch-Contained decode p Event.message pkt h = rw h (session_message-Contained _)
  dispatch-Contained decode p Event.update_metadata pkt h =
      rw h (with_id-Contained pkt.id _ (λ i. metadata_update-Contained pkt i _))
  dispatch-Contained decode p Event.update_state pkt h =
      rw h (with_id-Contained pkt.id _ (λ i. state_update-Contained pkt i _))
  dispatch-Contained decode p Event.machine_update_metadata pkt h =
      rw h (with_id-Contained pkt.id _ (λ i. machine_metadata_update-Contained pkt i _))
  dispatch-Contained decode p Event.machine_update_state pkt h =
      rw h (with_id-Contained pkt.id _ (λ i. machine_state_update-Contained pkt i _))
  dispatch-Contained decode p Event.machine_alive pkt h = rw h (machine_is_alive-Contained _)
  dispatch-Contained decode p Event.usage_report pkt h = rw h (report_usage-Contained _)
  dispatch-Contained decode p Event.session_alive pkt h = rw h (session_is_alive-Contained _)
  dispatch-Contained decode p Event.session_end pkt h = rw h (session_has_ended-Contained _)
  dispatch-Contained decode p Event.unknown pkt h = nothing-Contained json inp c w false w

-- A broadcast of an event goes to the room of the connection's user, to the room of a machine that is
-- the connection's own or that its user can read, or to the room of a session; unless the event is a
-- usage report, `session-alive` or `session-end`, its user can read that session.
pub dispatch-Fits :
    (json : Codec Json) (decode : Decoders) (inp : Inputs) (p : Pointer) (w : World) (e : Event)
    (pkt : EventPacket)
    → All
        (Fits w.store (w.server.conn_of p) (is_unchecked e))
        (dispatch json decode inp p w e pkt).1
dispatch-Fits json decode inp p w e pkt =
    let c = w.server.conn_of p in (dispatch-Contained json inp c w decode p e pkt refl).each
