-- ===== src/SocketIo/Send/Serving.antt =====
-- The state that the server keeps between its steps: connections and rooms agree, and whoever is in a
-- room is registered.
use happy_server_lite.Base.{
  GoString, is_empty, Bool, true, false, not, ◌&&◌, ◌||◌, ◌≡◌, refl, sym, ◌∙◌, arith, eqb, eqb_iff,
  [], Bool-cases, inl, inr,
}
use happy_server_lite.Base.Pointers.{Pointer, contains, contains-add}
use happy_server_lite.SocketIo.Connections.{
  Server, ConnectAuth, unregister_conn_locked, register_conn, admit,
}
use happy_server_lite.SocketIo.Connections.Rooms.{in_room, in_room-join_room}
use happy_server_lite.SocketIo.Connections.Admission.{
  Placed, unregister_conn_locked-rooms, admit-Placed,
}
use happy_server_lite.SocketIo.Events.Bodies.{RoomKind, users, sessions, machines}
use happy_server_lite.SocketIo.Send.{rooms_of}

-- The connection is in one of the rooms that its record names.
abbrev pub present : Server → Pointer → Bool
present s p =
    in_room s.room_users (s.conn_of p).user_id p
    || in_room s.room_sessions (s.conn_of p).session_id p
    || in_room s.room_machines (s.conn_of p).machine_id p

pub member-present :
    (s : Server) (kind : RoomKind) (key : GoString) (p : Pointer)
    → Placed s
    → in_room (rooms_of s kind) key p ≡ true
    → present s p ≡ true
member-present s users key p placed h =
    let (a, b, named, d) = placed.users key p h in rw named (ground (arith, h))
member-present s sessions key p placed h =
    let (a, b, named, d) = placed.sessions key p h in rw named (ground (arith, h))
member-present s machines key p placed h =
    let (a, b, named, d) = placed.machines key p h in rw named (ground (arith, h))

pub record Serving (s : Server) : Type 0 where
  pub placed : Placed s
  pub registered : (p : Pointer) → present s p ≡ true → contains s.conns p ≡ true

pub unregister_conn_of :
    (s : Server) (c : Pointer) → (unregister_conn_locked s c).conn_of ≡ s.conn_of
unfolding unregister_conn_locked
unregister_conn_of s c = refl

pub still_in : (a b t : Bool) → a ≡ (t && b) → a ≡ true → b ≡ true
still_in a b t e h = ground (arith, e, h)

pub unregistered-present :
    (s : Server) (c p : Pointer)
    → Placed s
    → present (unregister_conn_locked s c) p ≡ (not (eqb p c) && present s p)
unregistered-present s c p placed =
    let left = unregister_conn_locked-rooms s c placed in
    let known = s.conn_of p in
    let at_users = left known.user_id p in
    let at_sessions = left known.session_id p in
    let at_machines = left known.machine_id p in
    rw (unregister_conn_of s c, at_users.0, at_sessions.1, at_machines.2) (ground arith)

pub unregister_conn_locked-Serving :
    (s : Server) (c : Pointer) → Serving s → Serving (unregister_conn_locked s c)
unregister_conn_locked-Serving s c serving =
    let placed = serving.placed in
    let same : (unregister_conn_locked s c).conn_of ≡ s.conn_of = unregister_conn_of s c in
    let left = unregister_conn_locked-rooms s c placed in
    record {
      placed = record {
        users = λ k p h. rw same (placed.users k p (still_in _ _ _ (left k p).0 h));
        sessions = λ k p h. rw same (placed.sessions k p (still_in _ _ _ (left k p).1 h));
        machines = λ k p h. rw same (placed.machines k p (still_in _ _ _ (left k p).2 h));
      };
      registered = λ p h.
          ground (arith, h, unregistered-present s c p placed, (left [] p).4, serving.registered p);
    }

-- A new connection is registered.
pub register_conn-Serving : (s : Server) (c : Pointer) → Serving s → Serving (register_conn s c)
unfolding register_conn
register_conn-Serving s c serving = record {
  placed = record {
    users = serving.placed.users;
    sessions = serving.placed.sessions;
    machines = serving.placed.machines;
  };
  registered = λ p h. ground (arith, h, contains-add c s.conns p, serving.registered p);
}

admit-present :
    (s : Server) (c p : Pointer) (user_id : GoString) (auth : ConnectAuth)
    → eqb p c ≡ false
    → present (admit s c user_id auth) p ≡ present s p
unfolding admit
admit-present s c p user_id auth other =
    let known = s.conn_of p in
    ground (
      arith,
      other,
      eqb_iff p c,
      eqb_iff c p,
      in_room-join_room s.room_users user_id c known.user_id p,
      in_room-join_room s.room_sessions auth.session_id c known.session_id p,
      in_room-join_room s.room_machines auth.machine_id c known.machine_id p,
    )

admit-conns :
    (s : Server) (c : Pointer) (user_id : GoString) (auth : ConnectAuth)
    → (admit s c user_id auth).conns ≡ s.conns
unfolding admit
admit-conns s c user_id auth = refl

-- A registered connection that is not connected is admitted.
pub admit-Serving :
    (s : Server) (c : Pointer) (user_id : GoString) (auth : ConnectAuth)
    → (s.conn_of c).connected ≡ false
    → is_empty user_id ≡ false
    → contains s.conns c ≡ true
    → Serving s
    → Serving (admit s c user_id auth)
admit-Serving s c user_id auth fresh named there serving = record {
  placed = admit-Placed s c user_id auth fresh named serving.placed;
  registered = λ p h. elim (Bool-cases (eqb p c)) [
    | inl e ↦ let same = (eqb_iff p c).0 e in rw (admit-conns s c user_id auth, same) there
    | inr e ↦
        rw (admit-conns s c user_id auth)
          (serving.registered p (sym (admit-present s c p user_id auth e) ∙ h))
  ];
}
