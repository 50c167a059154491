-- ===== src/Hub.antt =====
-- internal/hub/hub.go. A connection is the pointer to it; its field `UserID` never changes, and is an
-- argument, as is the outcome of `Writer.Write` on the message at hand.
pub mod Delivery
use happy_server_lite.Base.{
  GoString, Option, none, some, Bool, not, lookup, insert, delete, get_or, List, [], ◌∷◌, Map,
  filter, if◌then◌else◌,
}
use happy_server_lite.Base.Pointers.{Pointer, add, remove}

pub record Hub : Type 0 where
  pub connections : Map (List Pointer)

abbrev pub new : Hub
new = record { connections = [] }

-- `len(set) == 0`
abbrev pub is_empty_set : List Pointer → Bool
is_empty_set [] = Bool.true
is_empty_set (p ∷ ps) = Bool.false

module _ (user_of : Pointer → GoString) where
  unfoldable pub register : Hub → Pointer → Hub
  register h conn = record {
    connections =
        insert (user_of conn) (add conn (get_or (user_of conn) [] h.connections)) h.connections;
  }

  unfoldable pub unregister : Hub → Pointer → Hub
  unregister h conn = elim (lookup (user_of conn) h.connections) [
    | none ↦ h
    | some set ↦
        let left = remove conn set in
        record {
          connections =
              if is_empty_set left
              then delete (user_of conn) h.connections
              else insert (user_of conn) left h.connections;
        }
  ]

  -- the loop over `failed`
  unfoldable pub unregister_all : Hub → List Pointer → Hub
  unregister_all h [] = h
  unregister_all h (c ∷ cs) = unregister_all (unregister h c) cs

  -- The hub that is left, the connections written to, in order, and those closed.
  unfoldable pub broadcast : (Pointer → Bool) → Hub → GoString → Hub × List Pointer × List Pointer
  unfolding unregister_all
  broadcast write_ok h user_id =
      let conns = get_or user_id [] h.connections in
      let failed = filter (λ c. not (write_ok c)) conns in (unregister_all h failed, conns, failed)
