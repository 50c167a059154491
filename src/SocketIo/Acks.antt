-- ===== src/SocketIo/Acks.antt =====
-- internal/socketio/server.go: `emitWithAck` and `resolveAck` on the table of pending answers. A call
-- waits on a channel with room for one answer; `answers` lists what was put into the channels, with
-- the id of the call that waits on each. The steps of several calls may come in any order.
pub mod Once
use happy_server_lite.Base.{ℕ, GoString, Bool, if◌then◌else◌, inc64, List, [], ◌∷◌, ◌++◌}
use happy_server_lite.Base.Pointers.{contains, add, remove}

pub record Acks : Type 0 where
  pub next_ack_id : ℕ
  pub pending_ack : List ℕ
  pub answers : List (ℕ × List GoString)

abbrev pub no_acks : Acks
no_acks = record { next_ack_id = 0; pending_ack = []; answers = [] }

-- The start of `emitWithAck`: a new id, and its channel.
unfoldable pub begin_ack : Acks → Acks
begin_ack t =
    let id : ℕ = inc64 t.next_ack_id in
    record t { next_ack_id = id; pending_ack = add id t.pending_ack }

-- The ways in which `emitWithAck` gives up: the packet cannot be built or queued, or time is over.
unfoldable pub give_up : Acks → ℕ → Acks
give_up t id = record t { pending_ack = remove id t.pending_ack }

unfoldable pub resolve_ack : Acks → ℕ → List GoString → Acks
resolve_ack t id args =
    let answered : Acks = record t {
      pending_ack = remove id t.pending_ack;
      answers = t.answers ++ (id, args) ∷ [];
    } in
    if contains t.pending_ack id then answered else t

pub data Step : Type 0 where
  begins : Step
  gives_up : ℕ → Step
  resolves : ℕ → List GoString → Step

unfoldable pub step : Acks → Step → Acks
unfolding begin_ack give_up resolve_ack
step t Step.begins = begin_ack t
step t (Step.gives_up id) = give_up t id
step t (Step.resolves id args) = resolve_ack t id args

unfoldable pub run : Acks → List Step → Acks
unfolding step
run t [] = t
run t (x ∷ xs) = run (step t x) xs
