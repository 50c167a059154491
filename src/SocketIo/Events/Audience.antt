-- ===== src/SocketIo/Events/Audience.antt =====
-- Which rooms the events of a connection are told to.
pub mod Rooms
use happy_server_lite.Base.{
  ℕ, GoString, is_empty, ◌≡◌, refl, ap, Bool, true, false, not, ◌||◌, Option, none, some, ◌⊎◌, inl,
  inr, List, [], ◌∷◌, ◌++◌, if◌then◌else◌, ◌==◌, ==_iff, arith, All, Option-cases, Bool-cases, eqb,
}
use happy_server_lite.Base.Pointers.{Pointer}
use happy_server_lite.Json.{Json}
use happy_server_lite.Model.{Session, SessionMessage, Machine}
use happy_server_lite.Store.State.{Store, Status, Result, ok, err}
use happy_server_lite.Store.Messages.{append_message}
use happy_server_lite.Store.Sessions.{
  get_session, update_session_metadata, update_session_agent_state,
}
use happy_server_lite.Store.Machines.{
  get_machine, update_machine_metadata, update_machine_daemon_state,
}
use happy_server_lite.SocketIo.Protocol.{Codec, EventPacket, ParseError, parse_socket_event_packet}
use happy_server_lite.SocketIo.Connections.{Conn, machine_scoped}
use happy_server_lite.SocketIo.Events.Bodies.{
  MessageBody, MetadataBody, StateBody, MachineMetadataBody, MachineStateBody, MethodBody, CallBody,
  MachineAliveBody, UsageBody, AliveBody, EndBody, Decoders, RoomKind, users, sessions, machines,
  Effect, reply, to_room, persist, call, World, Handled, Inputs, first_arg,
}
use happy_server_lite.SocketIo.Events.Updates.{
  announce, answer_update, appended, session_message, handle_session_message, metadata_update,
  handle_session_metadata_update, state_update, handle_session_state_update,
  machine_metadata_update, handle_machine_metadata_update, machine_state_update,
  handle_machine_state_update, may_write, after_snapshot, is_success, to_rooms, reply_built,
  persisted, next_update_id, update_packet, acknowledge,
}
use happy_server_lite.SocketIo.Events.Handlers.{
  Event, event_of_name, handle_ping, register_method, unregister_method, handle_rpc_call,
  call_method, handle_rpc_event, machine_is_alive, report_usage, session_is_alive,
  session_has_ended, dispatch, parsed_event, told_both, handle_event,
}

-- The events that name a session, and that are told without a look at the store.
abbrev pub is_unchecked : Event → Bool
is_unchecked Event.usage_report = true
is_unchecked Event.session_alive = true
is_unchecked Event.session_end = true
is_unchecked _ = false

abbrev pub IsReadable : Store → Conn → GoString → Type 0
IsReadable store c sid = (sess : Session) × (get_session store c.user_id sid ≡ some sess)

abbrev pub IsOwnMachine : Store → Conn → GoString → Type 0
IsOwnMachine store c mid =
    (mid ≡ c.machine_id) ⊎ ((m : Machine) × (get_machine store c.user_id mid ≡ some m))

-- A broadcast goes to the user's own room, to the room of a machine that is the connection's own or that
-- its user can read, or to the room of a session; unless the event is one that does not look, the
-- session is one that the user can read.
abbrev pub Fits : Store → Conn → Bool → Effect → Type 0
Fits store c unchecked (to_room users key packet) = key ≡ c.user_id
Fits store c unchecked (to_room sessions key packet) = (unchecked ≡ true) ⊎ IsReadable store c key
Fits store c unchecked (to_room machines key packet) = IsOwnMachine store c key
Fits store c unchecked (reply packet) = Unit
Fits store c unchecked (persist snapshot) = Unit
Fits store c unchecked (call h arg) = Unit

pub record Contained (w : World) (c : Conn) (unchecked : Bool) (out : Handled) : Type 0 where
  pub each : All (Fits w.store c unchecked) out.1

pub All-append :
    (P : Effect → Type 0) (xs ys : List Effect) → All P xs → All P ys → All P (xs ++ ys)
All-append P [] ys h k = k
All-append P (x ∷ xs) ys (p, h) k = (p, All-append P xs ys h k)

module _ (json : Codec Json) (inp : Inputs) (c : Conn) (w : World) where
  module _ (loose : Bool) where
    pub nothing-Contained : (w' : World) → Contained w c loose (w', [])
    nothing-Contained w' = record { each = tt }

    pub if-Contained :
        (test : Bool) (x y : Handled)
        → (test ≡ true → Contained w c loose x)
        → (test ≡ false → Contained w c loose y)
        → Contained w c loose (if test then x else y)
    if-Contained true x y h k = h refl
    if-Contained false x y h k = k refl

    pub reply_built-each :
        (packet : Option GoString) → All (Fits w.store c loose) (reply_built json packet)
    reply_built-each none = tt
    reply_built-each (some packet) = (tt, tt)

    persisted-each : (o : Option (List Machine)) → All (Fits w.store c loose) (persisted o)
    persisted-each none = tt
    persisted-each (some snapshot) = (tt, tt)

    pub to_rooms-sessions :
        (sid : GoString) (packet : Option GoString)
        → (loose ≡ true) ⊎ IsReadable w.store c sid
        → All (Fits w.store c loose) (to_rooms json sessions sid c.user_id packet)
    to_rooms-sessions sid none h = tt
    to_rooms-sessions sid (some packet) h = (h, (refl, tt))

    pub to_rooms-machines :
        (mid : GoString) (packet : Option GoString)
        → IsOwnMachine w.store c mid
        → All (Fits w.store c loose) (to_rooms json machines mid c.user_id packet)
    to_rooms-machines mid none h = tt
    to_rooms-machines mid (some packet) h = (h, (refl, tt))

    pub told_both-sessions :
        (sid : GoString) (packet : Option GoString)
        → (loose ≡ true) ⊎ IsReadable w.store c sid
        → All (Fits w.store c loose) (told_both json users c.user_id sessions sid packet)
    told_both-sessions sid none h = tt
    told_both-sessions sid (some packet) h = (refl, (h, tt))

    pub told_both-machines :
        (mid : GoString) (packet : Option GoString)
        → IsOwnMachine w.store c mid
        → All (Fits w.store c loose) (told_both json machines mid users c.user_id packet)
    told_both-machines mid none h = tt
    told_both-machines mid (some packet) h = (h, (refl, tt))

    pub answer_update-Contained :
        (pkt : EventPacket) (id : ℕ) (w' : World) (status : Status) (resp : Json) (kind : RoomKind)
        (key : GoString) (body : Json)
        → ((packet : Option GoString)
            → is_success status ≡ true
            → All (Fits w.store c loose) (to_rooms json kind key c.user_id packet))
        → Contained w c loose (answer_update json inp c pkt id w' status resp kind key body)
    unfolding announce
    answer_update-Contained pkt id w' status resp kind key body h =
        if-Contained (not (is_success status)) _ _ (λ e. record { each = reply_built-each _ })
          (λ e. record {
            each =
                All-append _ (acknowledge json pkt id resp) _ (reply_built-each _)
                  (h _ (ground (arith, e)));
          })

    pub after_snapshot-Contained :
        (snapshot : Option (List Machine)) (out : Handled)
        → Contained w c loose out
        → Contained w c loose (after_snapshot json snapshot out)
    after_snapshot-Contained snapshot (w', effects) h = record {
      each = All-append _ (persisted snapshot) effects (persisted-each snapshot) h.each;
    }
