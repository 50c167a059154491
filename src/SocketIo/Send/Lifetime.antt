-- ===== src/SocketIo/Send/Lifetime.antt =====
-- The states that the server of real-time connections runs through.
use happy_server_lite.Base.{
  ℕ, suc, GoString, ◌≡◌, sym, subst, true, false, Option, some, List, [], length, arith, Map,
  lookup,
}
use happy_server_lite.Base.Pointers.{Pointer, contains}
use happy_server_lite.Json.{Json}
use happy_server_lite.Store.State.{Store}
use happy_server_lite.SocketIo.Protocol.{Codec}
use happy_server_lite.SocketIo.Connections.{
  Server, ConnectAuth, Connected, register_conn, handle_connect,
}
use happy_server_lite.SocketIo.Connections.Admission.{handle_connect-IsAdmitted}
use happy_server_lite.SocketIo.Events.Bodies.{Effect}
use happy_server_lite.SocketIo.Send.{Line, Net, perform, unregister_conn}
use happy_server_lite.SocketIo.Send.Serving.{Serving, register_conn-Serving, admit-Serving}
use happy_server_lite.SocketIo.Send.Ends.{unregister_conn_terminates}
use happy_server_lite.SocketIo.Send.Performed.{perform_terminates}

-- `NewServer`, before any connection: no pointer is connected yet
abbrev pub new_server : Server
new_server = record {
  room_users = [];
  room_sessions = [];
  room_machines = [];
  rpc_by_method = [];
  conns = [];
  conn_of = λ p. record {
    connected = false;
    user_id = [];
    client_type = [];
    session_id = [];
    machine_id = [];
  };
}

abbrev pub new_net : Net
new_net = record { server = new_server; line = λ p. record { closed = false; queue = [] } }

-- the fuel that a broadcast is given
abbrev pub enough : Net → ℕ
enough n = suc (length n.server.conns)

module _ (json : Codec Json) (verify_token : GoString → Option GoString)
    (decode_auth : GoString → Option ConnectAuth) where
  -- A new connection is registered; a registered one sends a connect that is accepted; an event changes
  -- the RPC methods and has its effects; the writer of a queue takes from it or closes it; a connection
  -- ends. The store is at each connect what it then is.
  pub data Reached : Net → Type 0 where
    starts : Reached new_net
    registers :
        (n : Net) (c : Pointer)
        → Reached n
        → Reached (record n { server = register_conn n.server c })
    connects :
        (n : Net) (c : Pointer) (store : Store) (payload ns : GoString) (t : Server)
        → contains n.server.conns c ≡ true
        → handle_connect verify_token decode_auth store n.server c payload ≡ Connected.accepted ns t
        → Reached n
        → Reached (record n { server = t })
    changes_methods :
        (n : Net) (methods : Map Pointer)
        → Reached n
        → Reached (record n { server = record n.server { rpc_by_method = methods } })
    performs :
        (n n' : Net) (now ack_id : ℕ) (c : Pointer) (effects : List Effect)
        → perform json now (enough n) ack_id c effects n ≡ some n'
        → Reached n
        → Reached n'
    writes : (n : Net) (line : Pointer → Line) → Reached n → Reached (record n { line = line })
    ends :
        (n n' : Net) (now : ℕ) (c : Pointer)
        → unregister_conn json now (enough n) n c ≡ some n'
        → Reached n
        → Reached n'

  new_server-Serving : Serving new_server
  unfolding lookup contains
  new_server-Serving = record {
    placed = record {
      users = λ k p h. absurd (ground (arith, h));
      sessions = λ k p h. absurd (ground (arith, h));
      machines = λ k p h. absurd (ground (arith, h));
    };
    registered = λ p h. absurd (ground (arith, h));
  }

  accepted-fresh :
      (store : Store) (s : Server) (c : Pointer) (payload ns : GoString) (t : Server)
      → handle_connect verify_token decode_auth store s c payload ≡ Connected.accepted ns t
      → (s.conn_of c).connected ≡ false
  unfolding handle_connect
  accepted-fresh store s c payload ns t h = ground (arith, h)

  connected-Serving :
      (s : Server) (c : Pointer) (store : Store) (payload ns : GoString) (t : Server)
      → contains s.conns c ≡ true
      → handle_connect verify_token decode_auth store s c payload ≡ Connected.accepted ns t
      → Serving s
      → Serving t
  connected-Serving s c store payload ns t there h serving =
      let (a, placed) =
        handle_connect-IsAdmitted verify_token decode_auth store s c payload ns t h
          serving.placed in
      subst Serving (sym a.result) (
        admit-Serving s c a.user_id a.auth (accepted-fresh store s c payload ns t h) a.named there
          serving)

  same_result : (o : Option Net) (n n' : Net) → o ≡ some n → o ≡ some n' → n ≡ n'
  same_result o n n' e f = cc

  -- In every state that the server reaches, by registrations, accepted connects, changes of the RPC
  -- methods, the effects of events, writes of the queues and ends of connections in any order,
  -- connections and rooms agree, and whoever is in a room is registered.
  pub Reached-Serving : (n : Net) → Reached n → Serving n.server
  Reached-Serving n starts = new_server-Serving
  Reached-Serving n (registers m c r) = register_conn-Serving m.server c (Reached-Serving m r)
  Reached-Serving n (connects m c store payload ns t there h r) =
      connected-Serving m.server c store payload ns t there h (Reached-Serving m r)
  Reached-Serving n (changes_methods m methods r) =
      let serving = Reached-Serving m r in
      record {
        placed = record {
          users = serving.placed.users;
          sessions = serving.placed.sessions;
          machines = serving.placed.machines;
        };
        registered = serving.registered;
      }
  Reached-Serving n (performs m m' now ack_id c effects e r) =
      let (q, f, fewer) =
        perform_terminates json now (enough m) ack_id c effects m (Reached-Serving m r)
          (omega arith) in
      subst (λ (x : Net). Serving x.server) (same_result _ q m' f e) fewer.serving
  Reached-Serving n (writes m line r) = Reached-Serving m r
  Reached-Serving n (ends m m' now c e r) =
      let (q, f, fewer, gone) =
        unregister_conn_terminates json now (enough m) c m (Reached-Serving m r) (omega arith) in
      subst (λ (x : Net). Serving x.server) (same_result _ q m' f e) fewer.serving
