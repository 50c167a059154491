-- ===== src/SocketIo/Send/Delivery.antt =====
-- A broadcast to a room whose connections can all be written to.
use happy_server_lite.Base.{
  ℕ, suc, ◌<◌, GoString, is_empty, true, false, List, [], ◌∷◌, ◌++◌, Option, some, get_or, length,
  if◌then◌else◌, eqb_iff, ◌≡◌, refl, ap, arith, subst,
}
use happy_server_lite.Base.Pointers.{Pointer, contains}
use happy_server_lite.Json.{Json}
use happy_server_lite.SocketIo.Protocol.{Codec}
use happy_server_lite.SocketIo.Events.Bodies.{RoomKind}
use happy_server_lite.SocketIo.Send.{
  Line, Net, with_line, enqueue_text, send_queue_size, rooms_of, delivered, send_to,
  unregister_with, broadcast_to_room, engine_message,
}

-- The connection is open and its queue has room.
abbrev HasRoom : Line → Type 0
HasRoom l = (l.closed ≡ false) × (length l.queue < send_queue_size)

abbrev IsReady : Net → Pointer → Type 0
IsReady n p = HasRoom (n.line p)

-- no element twice
abbrev NoTwice : List Pointer → Type 0
NoTwice [] = Unit
NoTwice (p ∷ ps) = (contains ps p ≡ false) × NoTwice ps

abbrev pub longer : Line → GoString → Line
longer l msg = record l { queue = l.queue ++ msg ∷ [] }

enqueue_text-ready :
    (n : Net) (c : Pointer) (msg : GoString)
    → IsReady n c
    → enqueue_text n c msg ≡ (with_line n c (longer (n.line c) msg), false)
unfolding enqueue_text
enqueue_text-ready n c msg (opened, room) = ground (arith, opened, room)

same_contains : (cs : List Pointer) (p c : Pointer) → p ≡ c → contains cs p ≡ contains cs c
same_contains cs p c e = ap (contains cs) e

-- the loop over connections that are all ready
send_to-ready :
    (unregister : Net → Pointer → Option Net) (msg : GoString) (cs : List Pointer) (n : Net)
    → NoTwice cs
    → ((p : Pointer) → contains cs p ≡ true → IsReady n p)
    → (n' : Net) × (send_to unregister msg cs n ≡ some n')
      × (n'.server ≡ n.server)
      × ((p : Pointer) → n'.line p ≡ (if contains cs p then longer (n.line p) msg else n.line p))
unfolding send_to contains
send_to-ready unregister msg [] n once ready = (n, refl, refl, λ p. refl)
send_to-ready unregister msg (c ∷ cs) n (fresh, once) ready =
    let first = with_line n c (longer (n.line c) msg) in
    let sent : delivered unregister n c msg ≡ some first =
      rw (enqueue_text-ready n c msg (ready c (ground arith))) refl in
    let (n', e, same, lines) = send_to-ready unregister msg cs first once (λ p h.
      subst HasRoom (ground (arith, h, fresh, eqb_iff p c, same_contains cs p c))
        (ready p (ground (arith, h)))) in
    (
      n',
      rw sent e,
      same,
      λ p. ground (arith, lines p, fresh, eqb_iff p c, eqb_iff c p, same_contains cs p c),
    )

-- Where every connection of a room is open and has room in its queue, a broadcast, with any fuel, puts
-- the packet at the end of the queue of each of them once, and changes no other queue and no room.
pub broadcast_to_room-delivers :
    (json : Codec Json) (now depth : ℕ) (n : Net) (kind : RoomKind) (key payload : GoString)
    → let members = get_or key [] (rooms_of n.server kind) in
      is_empty key ≡ false
      → NoTwice members
      → ((p : Pointer) → contains members p ≡ true → IsReady n p)
      → (n' : Net) × (broadcast_to_room json now (suc depth) n kind key payload ≡ some n')
        × (n'.server ≡ n.server)
        × ((p : Pointer)
            → n'.line p ≡ (
                if contains members p
                then longer (n.line p) (engine_message ∷ payload)
                else n.line p))
unfolding broadcast_to_room
broadcast_to_room-delivers json now depth n kind key payload named once ready = rw named (
    send_to-ready (unregister_with json now (broadcast_to_room json now depth))
      (engine_message ∷ payload) (get_or key [] (rooms_of n.server kind)) n once ready)
