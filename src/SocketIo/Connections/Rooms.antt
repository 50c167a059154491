-- ===== src/SocketIo/Connections/Rooms.antt =====
-- Who is in a room after a join and a leave, and after a whole connection comes or goes.
use happy_server_lite.Base.{
  GoString, is_empty, ◌==◌, ==_iff, Bool, true, false, not, ◌&&◌, ◌||◌, lookup, get_or,
  lookup-insert, lookup-delete, List, [], ◌∷◌, eqb, ◌≡◌, refl, inl, inr, arith, Option-cases,
}
use happy_server_lite.Base.Pointers.{Pointer, contains, add, remove, contains-add, contains-remove}
use happy_server_lite.Hub.{is_empty_set}
use happy_server_lite.SocketIo.Connections.{Rooms, join_room, leave_room}

abbrev pub in_room : Rooms → GoString → Pointer → Bool
in_room rooms key p = contains (get_or key [] rooms) p

contains-nil : (p : Pointer) → contains [] p ≡ false
unfolding contains
contains-nil p = refl

contains-is_empty_set :
    (ps : List Pointer) (p : Pointer) → is_empty_set ps ≡ true → contains ps p ≡ false
unfolding contains
contains-is_empty_set [] p h = refl
contains-is_empty_set (q ∷ ps) p h = cc

-- A join puts the connection into the room of a key that is not empty, and moves nobody else.
pub in_room-join_room :
    (rooms : Rooms) (key : GoString) (c : Pointer) (k : GoString) (p : Pointer)
    → in_room (join_room rooms key c) k p
      ≡ ((not (is_empty key) && (key == k) && eqb c p) || in_room rooms k p)
unfolding join_room
in_room-join_room rooms key c k p =
    let set = add c (get_or key [] rooms) in
    ground
      (arith, lookup-insert k key set rooms, contains-add c (get_or key [] rooms) p, ==_iff key k)

-- A leave takes the connection out of the room, and moves nobody else.
pub in_room-leave_room :
    (rooms : Rooms) (key : GoString) (c : Pointer) (k : GoString) (p : Pointer)
    → in_room (leave_room rooms key c) k p ≡ (not ((key == k) && eqb p c) && in_room rooms k p)
unfolding leave_room
in_room-leave_room rooms key c k p = elim (Option-cases (lookup key rooms)) [
  | inl e ↦ ground (arith, e, ==_iff key k, contains-nil p)
  | inr (set, e) ↦
      let left = remove c set in
      ground (
        arith,
        e,
        lookup-insert k key left rooms,
        lookup-delete k key rooms,
        contains-remove c set p,
        contains-is_empty_set left p,
        contains-nil p,
        ==_iff key k,
      )
]
