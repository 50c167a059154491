-- ===== src/SocketIo/Events/Routes.antt =====
-- The way from a message of a client to what handles it: its first byte is the packet type of
-- Engine.IO, the next one that of Socket.IO.
use happy_server_lite.Base.{GoString, [], ◌∷◌, ◌⊎◌, inl, inr, if◌then◌else◌, eqb, ℕ}
use happy_server_lite.Json.{Json}
use happy_server_lite.SocketIo.Protocol.{
  Codec, AckPacket, ParseError, parse_socket_ack_packet, socket_connect, socket_event, socket_ack,
}
use happy_server_lite.SocketIo.Send.{engine_message}

abbrev engine_close : ℕ
engine_close = 49

abbrev engine_pong : ℕ
engine_pong = 51

-- The four ends of a message: the handlers of a connect and of an event, the answer to a call, the
-- pong, the close, or nothing.
pub data Received : Type 0 where
  connect event : (payload : GoString) → Received
  acked : AckPacket → Received
  pong closing ignored : Received

abbrev acked_by : ParseError ⊎ AckPacket → Received
acked_by (inl e) = Received.ignored
acked_by (inr ack) = Received.acked ack

module _ (json : Codec Json) where
  unfoldable pub handle_socket_payload : GoString → Received
  handle_socket_payload [] = Received.ignored
  handle_socket_payload (c ∷ rest) =
      if eqb c socket_connect
      then Received.connect (c ∷ rest)
      else if eqb c socket_event
      then Received.event (c ∷ rest)
      else if eqb c socket_ack
      then acked_by (parse_socket_ack_packet json (c ∷ rest))
      else Received.ignored

  unfoldable pub handle_message : GoString → Received
  unfolding handle_socket_payload
  handle_message [] = Received.ignored
  handle_message (c ∷ rest) =
      if eqb c engine_pong
      then Received.pong
      else if eqb c engine_message
      then handle_socket_payload rest
      else if eqb c engine_close
      then Received.closing
      else Received.ignored
