-- ===== src/SocketIo/Send/Performed.antt =====
-- The effects of an event come to an end.
use happy_server_lite.Base.{ℕ, ◌<◌, GoString, List, [], ◌∷◌, length, length-filter-le, refl, arith}
use happy_server_lite.Base.Pointers.{Pointer}
use happy_server_lite.Json.{Json}
use happy_server_lite.SocketIo.Protocol.{Codec}
use happy_server_lite.SocketIo.Connections.{Server}
use happy_server_lite.SocketIo.Send.Serving.{present, Serving}
use happy_server_lite.SocketIo.Events.Bodies.{RoomKind, Effect, reply, to_room, persist, call}
use happy_server_lite.SocketIo.Send.{
  Net, enqueue_text, broadcast_to_room, perform_one, perform, engine_message, enqueue_built,
  emit_packet,
}
use happy_server_lite.SocketIo.Send.Fewer.{Fewer, Fewer-refl}
use happy_server_lite.SocketIo.Send.Ends.{
  Ends, enqueue_text-server, enqueue_built-server, then-Ends, later-Ends, Covers, Fewer-Covers,
  broadcast_to_room-EndsBelow,
}

module _ (known : List Pointer) where
  module _ (json : Codec Json) (now : ℕ) where
    -- fuel for any number of connections of the list
    known-EndsBelow :
        (depth : ℕ)
        → length known < depth
        → (n : Net) (kind : RoomKind) (key packet : GoString) → Serving n.server
        → Covers known n.server
        → Ends n.server (broadcast_to_room json now depth n kind key packet)
    known-EndsBelow depth enough n kind key packet serving covers =
        broadcast_to_room-EndsBelow known json now depth n kind key packet serving covers
          (omega (arith, enough, length-filter-le (present n.server) known))

    perform_one-Ends :
        (depth ack_id : ℕ) (c : Pointer) (x : Effect) (n : Net)
        → length known < depth
        → Serving n.server
        → Covers known n.server
        → Ends n.server (perform_one json now depth ack_id c x n)
    perform_one-Ends depth ack_id c (reply packet) n enough serving covers =
        let (n', failed) = enqueue_text n c (engine_message ∷ packet) in
        (
          n',
          refl,
          rw (enqueue_text-server n c (engine_message ∷ packet)) (Fewer-refl n.server serving),
        )
    perform_one-Ends depth ack_id c (to_room kind key packet) n enough serving covers =
        known-EndsBelow depth enough n kind key packet serving covers
    perform_one-Ends depth ack_id c (persist snapshot) n enough serving covers =
        (n, refl, Fewer-refl n.server serving)
    perform_one-Ends depth ack_id c (call h arg) n enough serving covers = (
      enqueue_built json now h (emit_packet json now ack_id arg) n,
      refl,
      rw (enqueue_built-server json now h (emit_packet json now ack_id arg) n)
          (Fewer-refl n.server serving),
    )

    -- The effects of an event, from a state `s` on.
    perform-Ends :
        (depth ack_id : ℕ) (c : Pointer) (xs : List Effect) (s : Server) (n : Net)
        → length known < depth
        → Fewer s n.server
        → Covers known s
        → Ends s (perform json now depth ack_id c xs n)
    unfolding perform
    perform-Ends depth ack_id c [] s n enough f covers = (n, refl, f)
    perform-Ends depth ack_id c (x ∷ xs) s n enough f covers =
        then-Ends s (perform_one json now depth ack_id c x n) (perform json now depth ack_id c xs)
          (later-Ends s n.server _ f (
            perform_one-Ends depth ack_id c x n enough f.serving
              (Fewer-Covers known s n.server f covers)))
          (λ n' f'. perform-Ends depth ack_id c xs s n' enough f' covers)

-- Where connections and rooms agree and whoever is in a room is registered, the effects of any event
-- come to an end, with more fuel than there are registered connections: the broadcasts, and all that
-- follows from the connections that they find closed or full. Nobody enters a room on the way, and
-- connections and rooms agree afterwards.
pub perform_terminates :
    (json : Codec Json) (now depth ack_id : ℕ) (c : Pointer) (effects : List Effect) (n : Net)
    → Serving n.server
    → length n.server.conns < depth
    → Ends n.server (perform json now depth ack_id c effects n)
perform_terminates json now depth ack_id c effects n serving enough =
    perform-Ends n.server.conns json now depth ack_id c effects n.server n enough
      (Fewer-refl n.server serving) serving.registered
