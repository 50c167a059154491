-- ===== src/SocketIo/Events/Sequence.antt =====
-- What the clients are told of a change is what the store then holds, in numbered updates.
use happy_server_lite.Base.{
  ℕ, GoString, codes, is_empty, ◌≡◌, refl, ap, sym, false, none, some, Option, List, [], ◌∷◌, ◌++◌,
  if◌then◌else◌, inc64, arith,
}
use happy_server_lite.Json.{Json, optional}
use happy_server_lite.Store.State.{Store, Status, Outcome}
use happy_server_lite.Store.Register.{write}
use happy_server_lite.Store.Sessions.{
  get_session, update_session_metadata, update_session_agent_state,
}
use happy_server_lite.Store.Machines.{
  get_machine, update_machine_metadata, update_machine_daemon_state,
}
use happy_server_lite.Store.Sessions.Views as SessionViews
use happy_server_lite.Store.Machines.Views as MachineViews
use happy_server_lite.Store.Sessions.Registers.{
  update_session_metadata-write, update_session_agent_state-write,
}
use happy_server_lite.Store.Machines.Registers.{
  update_machine_metadata-write, update_machine_daemon_state-write, update_machine_metadata-Saves,
  update_machine_daemon_state-Saves,
}
use happy_server_lite.Model.{Machine}
use happy_server_lite.Store.Machines.Snapshot.{Saves}
use happy_server_lite.SocketIo.Protocol.{Codec, EventPacket}
use happy_server_lite.SocketIo.Connections.{Conn}
use happy_server_lite.SocketIo.Events.Bodies.{
  MetadataBody, StateBody, MachineMetadataBody, MachineStateBody, RoomKind, sessions, machines,
  Effect, World, Inputs,
}
use happy_server_lite.SocketIo.Events.Updates.{
  announce, answer_update, metadata_update, state_update, machine_metadata_update,
  machine_state_update, is_success, to_rooms, persisted, update_packet, acknowledge,
  update_response, change_of_session, change_of_machine,
}

module _ (json : Codec Json) (inp : Inputs) (c : Conn) (w : World) (pkt : EventPacket)
    (id : ℕ) where
  -- The number of the last update after a write, and the effects: the answer, and for a success the
  -- next update to the room and to the user.
  abbrev pub seq_after : Status → ℕ
  seq_after status = if is_success status then inc64 w.update_seq else w.update_seq

  abbrev pub told :
      {A : Type 0}
      → RoomKind
      → GoString
      → Outcome A
      → (resp change : Outcome A → Json) → List Effect
  told kind key out resp change =
      acknowledge json pkt id (resp out)
      ++ (if is_success out.status
          then to_rooms json kind key c.user_id
              (update_packet json inp (inc64 w.update_seq) (change out))
          else [])

  append-nil : (xs : List Effect) → xs ≡ xs ++ []
  append-nil [] = refl
  append-nil (x ∷ xs) = ap (◌∷◌ x) (append-nil xs)

  answer_update-told :
      {A : Type 0} (store : Store) (out : Outcome A) (resp change : Outcome A → Json)
      (kind : RoomKind) (key : GoString)
      → let done =
          answer_update json inp c pkt id
            (record w { store = store })
            out.status
            (resp out)
            kind
            key
            (change out) in
        (done.0.store ≡ store)
        × (done.0.update_seq ≡ seq_after out.status)
        × (done.1 ≡ told kind key out resp change)
  unfolding announce
  answer_update-told store out resp change kind key =
      let ack = acknowledge json pkt id (resp out) in ground (arith, append-nil ack)

  -- An update of a session's metadata with an identifier is a write of the register: what the
  -- store then holds is the register's new value; the sender is answered with the outcome of that
  -- write; and exactly a success takes the next update number and is told, with the new version and
  -- value, to the session's room and to the user's.
  pub metadata_update-write :
      (body : MetadataBody)
      → is_empty body.sid ≡ false
      → let done = metadata_update json inp c w pkt id (some body) in
        let (out, after) =
          write [] body.expected_version body.metadata
            (SessionViews.metadata_of (get_session w.store c.user_id body.sid)) in
        (SessionViews.metadata_of (get_session done.0.store c.user_id body.sid) ≡ after)
        × (done.0.update_seq ≡ seq_after out.status)
        × (done.1
            ≡ told sessions body.sid out
                (update_response (codes "metadata") Json.string)
                (change_of_session (codes "metadata") Json.string body.sid))
  unfolding metadata_update
  metadata_update-write body named =
      let (s', out) =
        update_session_metadata w.store c.user_id body.sid body.expected_version body.metadata
          inp.now in
      let (kept, seq, effects) =
        answer_update-told s' out (update_response (codes "metadata") Json.string)
          (change_of_session (codes "metadata") Json.string body.sid) sessions body.sid in
      let (same, other_field, others) =
        update_session_metadata-write w.store c.user_id body.sid body.expected_version body.metadata
          inp.now in
      rw (named, sym same) (ground (arith, kept, seq, effects, same))

  -- An update of a session's agent state with an identifier is a write of the register: what the
  -- store then holds is the register's new value; the sender is answered with the outcome of that
  -- write; and exactly a success takes the next update number and is told, with the new version and
  -- value, to the session's room and to the user's.
  pub state_update-write :
      (body : StateBody)
      → is_empty body.sid ≡ false
      → let done = state_update json inp c w pkt id (some body) in
        let (out, after) =
          write none body.expected_version body.agent_state
            (SessionViews.agent_state_of (get_session w.store c.user_id body.sid)) in
        (SessionViews.agent_state_of (get_session done.0.store c.user_id body.sid) ≡ after)
        × (done.0.update_seq ≡ seq_after out.status)
        × (done.1
            ≡ told sessions body.sid out
                (update_response (codes "agentState") optional)
                (change_of_session (codes "agentState") optional body.sid))
  unfolding state_update
  state_update-write body named =
      let (s', out) =
        update_session_agent_state w.store c.user_id body.sid body.expected_version body.agent_state
          inp.now in
      let (kept, seq, effects) =
        answer_update-told s' out (update_response (codes "agentState") optional)
          (change_of_session (codes "agentState") optional body.sid) sessions body.sid in
      let (same, other_field, others) =
        update_session_agent_state-write w.store c.user_id body.sid body.expected_version
          body.agent_state inp.now in
      rw (named, sym same) (ground (arith, kept, seq, effects, same))

  -- An update of a machine's metadata with an identifier is a write of the register: what the
  -- store then holds is the register's new value; a success on a store with a state file first writes
  -- a list of exactly the machines that the store then holds, sorted by identifier, and no other
  -- update writes the file; then the sender is answered with the outcome of that write; and exactly a
  -- success takes the next update number and is told, with the new version and value, to the
  -- machine's room and to the user's.
  pub machine_metadata_update-write :
      (body : MachineMetadataBody)
      → is_empty body.machine_id ≡ false
      → let done = machine_metadata_update json inp c w pkt id (some body) in
        let (out, after) =
          write [] body.expected_version body.metadata
            (MachineViews.metadata_of (get_machine w.store c.user_id body.machine_id)) in
        (MachineViews.metadata_of (get_machine done.0.store c.user_id body.machine_id) ≡ after)
        × (done.0.update_seq ≡ seq_after out.status)
        × (snapshot : Option (List Machine)) × Saves out.status done.0.store snapshot
        × (done.1
            ≡ persisted snapshot
              ++ told machines body.machine_id out
                  (update_response (codes "metadata") Json.string)
                  (change_of_machine (codes "metadata") Json.string body.machine_id))
  unfolding machine_metadata_update
  machine_metadata_update-write body named =
      let (s', out, snapshot) =
        update_machine_metadata w.store c.user_id body.machine_id body.expected_version
          body.metadata inp.now in
      let (kept, seq, effects) =
        answer_update-told s' out (update_response (codes "metadata") Json.string)
          (change_of_machine (codes "metadata") Json.string body.machine_id) machines
          body.machine_id in
      let (same, other_field, others) =
        update_machine_metadata-write w.store c.user_id body.machine_id body.expected_version
          body.metadata inp.now in
      let saves =
        update_machine_metadata-Saves w.store c.user_id body.machine_id body.expected_version
          body.metadata inp.now in
      rw (named, sym same)
        (
          ground (arith, kept, same),
          ground (arith, seq),
          snapshot,
          rw kept saves,
          ground (arith, effects),
        )

  -- An update of a machine's daemon state with an identifier is a write of the register: what the
  -- store then holds is the register's new value; a success on a store with a state file first writes
  -- a list of exactly the machines that the store then holds, sorted by identifier, and no other
  -- update writes the file; then the sender is answered with the outcome of that write; and exactly a
  -- success takes the next update number and is told, with the new version and value, to the
  -- machine's room and to the user's.
  pub machine_state_update-write :
      (body : MachineStateBody)
      → is_empty body.machine_id ≡ false
      → let done = machine_state_update json inp c w pkt id (some body) in
        let (out, after) =
          write none body.expected_version body.daemon_state
            (MachineViews.daemon_state_of (get_machine w.store c.user_id body.machine_id)) in
        (MachineViews.daemon_state_of (get_machine done.0.store c.user_id body.machine_id) ≡ after)
        × (done.0.update_seq ≡ seq_after out.status)
        × (snapshot : Option (List Machine)) × Saves out.status done.0.store snapshot
        × (done.1
            ≡ persisted snapshot
              ++ told machines body.machine_id out
                  (update_response (codes "daemonState") optional)
                  (change_of_machine (codes "daemonState") optional body.machine_id))
  unfolding machine_state_update
  machine_state_update-write body named =
      let (s', out, snapshot) =
        update_machine_daemon_state w.store c.user_id body.machine_id body.expected_version
          body.daemon_state inp.now in
      let (kept, seq, effects) =
        answer_update-told s' out (update_response (codes "daemonState") optional)
          (change_of_machine (codes "daemonState") optional body.machine_id) machines
          body.machine_id in
      let (same, other_field, others) =
        update_machine_daemon_state-write w.store c.user_id body.machine_id body.expected_version
          body.daemon_state inp.now in
      let saves =
        update_machine_daemon_state-Saves w.store c.user_id body.machine_id body.expected_version
          body.daemon_state inp.now in
      rw (named, sym same)
        (
          ground (arith, kept, same),
          ground (arith, seq),
          snapshot,
          rw kept saves,
          ground (arith, effects),
        )
