-- ===== src/SocketIo/Send/Ends.antt =====
-- A broadcast comes to an end.
use happy_server_lite.Base.{
  ℕ, suc, zero, ◌≤◌, ◌<◌, GoString, ◌==◌, is_empty, Bool, true, false, not, ◌&&◌, Option, none,
  some, List, [], ◌∷◌, length, length-filter-le, get_or, ◌≡◌, refl, arith, if◌then◌else◌,
}
use happy_server_lite.Base.Pointers.{Pointer, contains}
use happy_server_lite.Json.{Json}
use happy_server_lite.SocketIo.Protocol.{◌>>=◌, Codec}
use happy_server_lite.SocketIo.Connections.{
  Conn, Server, session_scoped, machine_scoped, unregister_conn_locked,
}
use happy_server_lite.SocketIo.Send.Serving.{present, member-present, Serving}
use happy_server_lite.SocketIo.Events.Bodies.{RoomKind, users, sessions}
use happy_server_lite.SocketIo.Send.{
  Net, close, enqueue_text, rooms_of, delivered, send_to, cast_one, then_cast, announce_gone,
  closed_after, unregister_with, broadcast_to_room, unregister_conn, engine_message,
  machine_inactive, session_inactive, enqueue_built,
}
use happy_server_lite.SocketIo.Send.Fewer.{
  Fewer, Fewer-refl, Fewer-trans, unregister_conn_locked-Fewer, count, count_mono, count_strict,
}

-- There is a result, and nobody has entered a room on the way.
abbrev pub Ends : Server → Option Net → Type 0
Ends s out = (n : Net) × (out ≡ some n) × Fewer s n.server

pub enqueue_text-server :
    (n : Net) (c : Pointer) (msg : GoString) → (enqueue_text n c msg).0.server ≡ n.server
unfolding enqueue_text close
enqueue_text-server n c msg = ground arith

pub enqueue_built-server :
    (json : Codec Json) (now : ℕ) (h : Pointer) (packet : Option GoString) (n : Net)
    → (enqueue_built json now h packet n).server ≡ n.server
enqueue_built-server json now h none n = refl
enqueue_built-server json now h (some packet) n = enqueue_text-server n h (engine_message ∷ packet)

members_present :
    (s : Server) (kind : RoomKind) (key : GoString)
    → Serving s
    → (p : Pointer) → contains (get_or key [] (rooms_of s kind)) p ≡ true
    → present s p ≡ true
members_present s kind key serving p h = member-present s kind key p serving.placed h

some-injective : (a b : Net) → some a ≡ some b → a ≡ b
some-injective a b e = cc

if-Ends :
    (s : Server) (test : Bool) (x y : Option Net)
    → Ends s x
    → Ends s y
    → Ends s (if test then x else y)
if-Ends s true x y h k = h
if-Ends s false x y h k = k

pub then-Ends :
    (s : Server) (o : Option Net) (next : Net → Option Net)
    → Ends s o
    → ((n : Net) → Fewer s n.server → Ends s (next n))
    → Ends s (o >>= next)
then-Ends s none next (n, e, f) h = absurd (ground (arith, e))
then-Ends s (some n') next (n, e, f) h = h n' (rw (some-injective n' n e) f)

pub later-Ends : (s s' : Server) (o : Option Net) → Fewer s s' → Ends s' o → Ends s o
later-Ends s s' o f (n, e, g) = (n, e, Fewer-trans s s' n.server f g)

module _ (known : List Pointer) where
  -- everyone in a room is in the list
  abbrev pub Covers : Server → Type 0
  Covers s = (p : Pointer) → present s p ≡ true → contains known p ≡ true

  pub Fewer-Covers : (s s' : Server) → Fewer s s' → Covers s → Covers s'
  Fewer-Covers s s' f h p i = h p (f.sub p i)

  module _ (json : Codec Json) (now : ℕ) where
    -- a broadcast that ends wherever fewer than `bound` connections of the list are in a room
    abbrev EndsBelow : ℕ → (Net → RoomKind → GoString → GoString → Option Net) → Type 0
    EndsBelow bound cast =
        (n : Net) (kind : RoomKind) (key packet : GoString)
        → Serving n.server
        → Covers n.server
        → count known n.server < bound
        → Ends n.server (cast n kind key packet)

    module _ (bound : ℕ) (cast : Net → RoomKind → GoString → GoString → Option Net)
        (casts : EndsBelow bound cast) where
      cast_one-Ends :
          (kind : RoomKind) (key : GoString) (packet : Option GoString) (n : Net)
          → Serving n.server
          → Covers n.server
          → count known n.server < bound
          → Ends n.server (cast_one json now cast kind key packet n)
      cast_one-Ends kind key none n serving covers few = (n, refl, Fewer-refl n.server serving)
      cast_one-Ends kind key (some packet) n serving covers few =
          casts n kind key packet serving covers few

      then_cast-Ends :
          (s : Server) (kind : RoomKind) (key : GoString) (packet : Option GoString)
          (o : Option Net)
          → Covers s
          → count known s < bound
          → Ends s o
          → Ends s (then_cast json now cast kind key packet o)
      then_cast-Ends s kind key packet o covers few (n, e, f) =
          let covers' = Fewer-Covers s n.server f covers in
          let few' : count known n.server < bound =
            omega (arith, few, count_mono known s n.server f) in
          let (n', e', f') = cast_one-Ends kind key packet n f.serving covers' few' in
          (n', rw e e', Fewer-trans s n.server n'.server f f')

      announce_gone-Ends :
          (c : Conn) (n : Net)
          → Serving n.server
          → Covers n.server
          → count known n.server < bound
          → Ends n.server (announce_gone json now cast c n)
      unfolding announce_gone
      announce_gone-Ends c n serving covers few =
          let here : Ends n.server (some n) = (n, refl, Fewer-refl n.server serving) in
          let told =
            cast_one-Ends users c.user_id (machine_inactive json now c.machine_id) n serving covers
              few in
          let packet = session_inactive json now c.session_id in
          let after =
            if-Ends n.server (c.client_type == machine_scoped && not (is_empty c.machine_id)) _ _
              told here in
          let both =
            then_cast-Ends n.server sessions c.session_id packet _ covers few
              (then_cast-Ends n.server users c.user_id packet _ covers few after) in
          if-Ends n.server (is_empty c.user_id) _ _ here (
            if-Ends n.server (c.client_type == session_scoped && not (is_empty c.session_id)) _ _
              both after)

      closed_after-Ends :
          (s : Server) (c : Pointer) (o : Option Net)
          → Ends s o
          → Ends s (closed_after json now c o)
      unfolding close
      closed_after-Ends s c o (n, e, f) = (close n c, rw e refl, f)

      unregister_with-gone :
          (n : Net) (c : Pointer)
          → Serving n.server
          → Covers n.server
          → count known (unregister_conn_locked n.server c) < bound
          → Ends (unregister_conn_locked n.server c) (unregister_with json now cast n c)
      unfolding unregister_with
      unregister_with-gone n c serving covers few =
          let s' = unregister_conn_locked n.server c in
          let f = (unregister_conn_locked-Fewer n.server c serving).0 in
          let n' : Net = record n { server = s' } in
          closed_after-Ends s' c _ (
            announce_gone-Ends (n.server.conn_of c) n' f.serving (Fewer-Covers n.server s' f covers)
              few)

      unregister_with-Ends :
          (n : Net) (c : Pointer)
          → Serving n.server
          → Covers n.server
          → count known (unregister_conn_locked n.server c) < bound
          → Ends n.server (unregister_with json now cast n c)
      unregister_with-Ends n c serving covers few =
          later-Ends n.server (unregister_conn_locked n.server c) _
            (unregister_conn_locked-Fewer n.server c serving).0
            (unregister_with-gone n c serving covers few)

      -- one connection of the loop
      delivered-Ends :
          (s : Server) (c : Pointer) (msg : GoString) (n : Net)
          → Covers s
          → count known s ≤ bound
          → Fewer s n.server
          → present s c ≡ true
          → Ends s (delivered (unregister_with json now cast) n c msg)
      delivered-Ends s c msg n covers few f there =
          let (n', failed) = enqueue_text n c msg in
          let f' : Fewer s n'.server = rw (enqueue_text-server n c msg) f in
          let (g, gone) = unregister_conn_locked-Fewer n'.server c f'.serving in
          let s' = unregister_conn_locked n'.server c in
          let fewer =
            count_strict known s s' c (Fewer-trans s n'.server s' f' g) gone there
              (covers c there) in
          let ended =
            unregister_with-Ends n' c f'.serving (Fewer-Covers s n'.server f' covers)
              (omega (arith, fewer, few)) in
          if-Ends s failed _ _ (later-Ends s n'.server _ f' ended) (n', refl, f')

      -- The loop, from a state `s` in which each of the connections was in a room.
      send_to-Ends :
          (s : Server) (msg : GoString) (cs : List Pointer) (n : Net)
          → Covers s
          → count known s ≤ bound
          → Fewer s n.server
          → ((p : Pointer) → contains cs p ≡ true → present s p ≡ true)
          → Ends s (send_to (unregister_with json now cast) msg cs n)
      unfolding send_to contains
      send_to-Ends s msg [] n covers few f there = (n, refl, f)
      send_to-Ends s msg (c ∷ cs) n covers few f there =
          then-Ends s (delivered (unregister_with json now cast) n c msg)
            (send_to (unregister_with json now cast) msg cs)
            (delivered-Ends s c msg n covers few f (there c (ground arith)))
            (λ n' f'. send_to-Ends s msg cs n' covers few f' (λ p h. there p (ground (arith, h))))

    -- Fuel above the number of connections in a room is enough.
    pub broadcast_to_room-EndsBelow :
        (depth : ℕ) → EndsBelow depth (broadcast_to_room json now depth)
    unfolding broadcast_to_room
    broadcast_to_room-EndsBelow zero n kind key packet serving covers few =
        absurd (omega (arith, few))
    broadcast_to_room-EndsBelow (suc depth) n kind key packet serving covers few =
        let here : Ends n.server (some n) = (n, refl, Fewer-refl n.server serving) in
        let sent =
          send_to-Ends depth (broadcast_to_room json now depth) (broadcast_to_room-EndsBelow depth)
            n.server (engine_message ∷ packet) (get_or key [] (rooms_of n.server kind)) n covers
            (omega (arith, few)) (Fewer-refl n.server serving)
            (members_present n.server kind key serving) in
        if-Ends n.server (is_empty key) _ _ here sent

-- Where connections and rooms agree and whoever is in a room is registered, the end of a connection,
-- with its announcements, comes to an end, with more fuel than there are registered connections; the
-- connection is in no room afterwards, and nobody has entered one.
pub unregister_conn_terminates :
    (json : Codec Json) (now depth : ℕ) (c : Pointer) (n : Net)
    → Serving n.server
    → length n.server.conns < depth
    → (n' : Net) × (unregister_conn json now depth n c ≡ some n')
      × Fewer n.server n'.server
      × (present n'.server c ≡ false)
unfolding unregister_conn
unregister_conn_terminates json now depth c n serving enough =
    let known = n.server.conns in
    let s' = unregister_conn_locked n.server c in
    let (f, gone) = unregister_conn_locked-Fewer n.server c serving in
    let few : count known s' < depth = omega (arith, enough, length-filter-le (present s') known) in
    let (n', e, f') =
      unregister_with-gone known json now depth (broadcast_to_room json now depth)
        (broadcast_to_room-EndsBelow known json now depth) n c serving serving.registered few in
    (n', e, Fewer-trans n.server s' n'.server f f', ground (arith, gone, f'.sub c))
