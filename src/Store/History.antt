-- ===== src/Store/History.antt =====
-- The operations of internal/store on sessions and messages in one history: what each keeps, and so
-- what holds after any of them in any order.
pub mod Kept
use happy_server_lite.Base.{
  ℕ, GoString, Option, none, Bool, List, [], ◌∷◌, lookup, ◌≡◌, ◌+◌, ◌<◌, two_63, is_empty, false,
}
use happy_server_lite.Store.State.{Store}
use happy_server_lite.Store.Sessions.{
  SessionRequest, get_or_create_session, update_session_metadata, update_session_agent_state,
  set_session_active, delete_session,
}
use happy_server_lite.Store.Messages.{append_message}
use happy_server_lite.Store.Messages.Conversation.{count_of}

pub data Operation : Type 0 where
  create : SessionRequest → (new_id : GoString) (now : ℕ) → Operation
  set_metadata : (user_id sid : GoString) (expected : ℕ) (metadata : GoString) (now : ℕ) → Operation
  set_agent_state :
      (user_id sid : GoString) (expected : ℕ) (agent_state : Option GoString) (now : ℕ) → Operation
  set_active : (user_id sid : GoString) (active : Bool) (active_at now : ℕ) → Operation
  remove : (user_id sid : GoString) (now : ℕ) → Operation
  post : (user_id sid content new_id : GoString) (now : ℕ) → Operation

unfoldable pub act : Store → Operation → Store
act s (create r new_id now) = (get_or_create_session s r new_id now).0
act s (set_metadata user_id sid expected metadata now) =
    (update_session_metadata s user_id sid expected metadata now).0
act s (set_agent_state user_id sid expected agent_state now) =
    (update_session_agent_state s user_id sid expected agent_state now).0
act s (set_active user_id sid active active_at now) =
    (set_session_active s user_id sid active active_at now).0
act s (remove user_id sid now) = (delete_session s user_id sid now).0
act s (post user_id sid content new_id now) = (append_message s user_id sid content new_id now).0

unfoldable pub history : Store → List Operation → Store
unfolding act
history s [] = s
history s (o ∷ os) = history (act s o) os

-- What the code relies on: `uuid.NewString` draws an identifier that no session has, and no session
-- gets 2 ^ 63 - 1 messages.
abbrev pub Allowed : Store → Operation → Type 0
Allowed s (create r new_id now) = lookup new_id s.sessions_by_id ≡ none
Allowed s (post user_id sid content new_id now) = count_of s sid + 1 < two_63
Allowed s o = Unit {0}

abbrev pub AllAllowed : Store → List Operation → Type 0
AllAllowed s [] = Unit {0}
AllAllowed s (o ∷ os) = Allowed s o × AllAllowed (act s o) os
