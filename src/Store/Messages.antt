-- ===== src/Store/Messages.antt =====
-- internal/store/message_store.go, internal/store/seq.go, and the two operations of
-- internal/store/store.go over them.
pub mod Numbering
pub mod Conversation
use happy_server_lite.Base.{
  ℕ, GoString, Option, ltb, none, some, not, insert, get_or, inc64, slt, if◌then◌else◌, List, [],
  ◌∷◌, ◌++◌, length, Map,
}
use happy_server_lite.Model.{SessionMessage}
use happy_server_lite.Store.State.{Store, Result, ok, err, session_not_found}
use happy_server_lite.Store.Sessions.{get_session}

-- `nextForSession`: the new count is stored and returned
unfoldable pub next_for_session : Map ℕ → GoString → Map ℕ × ℕ
next_for_session per_session session_id =
    let n : ℕ = inc64 (get_or session_id 0 per_session) in (insert session_id n per_session, n)

unfoldable pub append :
    Map (List SessionMessage) → GoString → SessionMessage → Map (List SessionMessage)
append messages session_id msg =
    insert session_id (get_or session_id [] messages ++ msg ∷ []) messages

-- the loop of `getAfter`, which stops once `limit` messages are collected
unfoldable pub collect_after :
    ℕ → ℕ → List SessionMessage → List SessionMessage → List SessionMessage
collect_after after limit result [] = result
collect_after after limit result (msg ∷ msgs) =
    let collected = result ++ msg ∷ [] in
    let more = collect_after after limit collected msgs in
    let skip = collect_after after limit result msgs in
    if slt after msg.seq
    then (if not (slt (length collected) limit) then collected else more)
    else skip

-- `make([]model.SessionMessage, 0, limit)` panics once the capacity takes more than the 2 ^ 48 bytes of
-- the address space; a message takes 72 bytes, three strings of 16 and three integers of 8.
abbrev pub max_capacity : ℕ
max_capacity = 3909374911580

-- `none` is that panic.
unfoldable pub page_after : ℕ → ℕ → List SessionMessage → Option (List SessionMessage)
unfolding collect_after
page_after after limit [] = some []
page_after after limit (msg ∷ msgs) =
    if ltb max_capacity limit then none else some (collect_after after limit [] (msg ∷ msgs))

unfoldable pub get_after :
    Map (List SessionMessage) → GoString → ℕ → ℕ → Option (List SessionMessage)
unfolding page_after
get_after messages session_id after limit = page_after after limit (get_or session_id [] messages)

unfoldable pub append_message :
    Store → GoString → GoString → GoString → GoString → ℕ → Store × Result SessionMessage
unfolding next_for_session append
append_message s user_id session_id content new_id now = elim (get_session s user_id session_id) [
  | none ↦ (s, err session_not_found)
  | some _ ↦
      let (per_session, n) = next_for_session s.seq session_id in
      let msg : SessionMessage = record {
        id = new_id;
        session_id = session_id;
        seq = n;
        content = content;
        created_at = now;
        updated_at = now;
      } in
      (record s { seq = per_session; messages = append s.messages session_id msg }, ok msg)
]

-- `none` where `getAfter` panics.
unfoldable pub list_messages :
    Store → GoString → GoString → ℕ → ℕ → Option (Result (List SessionMessage))
unfolding get_after
list_messages s user_id session_id after limit = elim (get_session s user_id session_id) [
  | none ↦ some (err session_not_found)
  | some _ ↦
      let effective : ℕ = if not (slt 0 limit) then 100 else limit in
      elim (get_after s.messages session_id after effective) [
        | none ↦ none
        | some msgs ↦ some (ok msgs)
      ]
]
