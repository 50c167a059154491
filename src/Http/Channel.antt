-- ===== src/Http/Channel.antt =====
-- internal/handler/websocket.go: the plain WebSocket channel of a user, on the hub. The keep-alive of
-- its connection is the WebSocket library's: deadlines, and pings on a ticker.
pub mod Conversation
use happy_server_lite.Base.{
  ℕ, GoString, codes, is_empty, ◌==◌, Bool, true, false, not, ◌||◌, Option, none, some, ◌⊎◌, inl,
  inr, List, [], ◌∷◌, if◌then◌else◌,
}
use happy_server_lite.Base.Pointers.{Pointer}
use happy_server_lite.Json.{Json, obj}
use happy_server_lite.Model.{SessionMessage}
use happy_server_lite.Auth.{TokenConfig, Claims, Jwt, TokenError, verify_token}
use happy_server_lite.Hub.{Hub, register, unregister, broadcast}
use happy_server_lite.Store.State.{Store, Result, ok, err}
use happy_server_lite.Store.Messages.{append_message}
use happy_server_lite.Http.Answers.{Answer, no_user}

pub record ClientMessage : Type 0 where
  pub type_name : GoString
  pub sid : GoString
  pub message : GoString

-- A message to the clients; `json.Marshal` leaves out the fields with `omitempty` that are empty.
abbrev pub pong : Json
pong = obj ((codes "type", Json.string (codes "pong")) ∷ [])

abbrev pub new_message : GoString → SessionMessage → Json
new_message sid stored = obj (
    (codes "type", Json.string (codes "update"))
    ∷ (codes "event", Json.string (codes "new-message"))
    ∷ (
      codes "body",
      obj (
          (codes "t", Json.string (codes "new-message"))
          ∷ (codes "sessionId", Json.string sid)
          ∷ (
            codes "message",
            obj (
                (codes "id", Json.string stored.id)
                ∷ (codes "seq", Json.number stored.seq)
                ∷ (codes "createdAt", Json.number stored.created_at)
                ∷ (codes "updatedAt", Json.number stored.updated_at)
                ∷ (
                  codes "content",
                  obj (
                      (codes "t", Json.string (codes "encrypted"))
                      ∷ (codes "c", Json.string stored.content)
                      ∷ []),
                )
                ∷ []),
          )
          ∷ []),
    )
    ∷ [])

-- The store, the hub, and the writes to connections that were tried so far, the last one first.
pub record Channel : Type 0 where
  pub store : Store
  pub hub : Hub
  pub written : List (Pointer × Json)

-- A claim of the token, or the refusal.
abbrev opened_with : Channel → Pointer → TokenError ⊎ Claims → Answer ⊎ GoString
opened_with ch conn (inl e) = inl no_user
opened_with ch conn (inr claims) = inr claims.user_id

-- The checks of `Serve`: the user of the connection, or the refusal.
unfoldable pub open_channel : Jwt → TokenConfig → Channel → Pointer → GoString → Answer ⊎ GoString
open_channel jwt cfg ch conn token =
    if is_empty token then inl no_user else opened_with ch conn (verify_token jwt token cfg)

module _ (user_of : Pointer → GoString) (write_ok : Pointer → Bool) where
  abbrev pub write_all : List Pointer → Json → List (Pointer × Json) → List (Pointer × Json)
  write_all [] out written = written
  write_all (c ∷ cs) out written = write_all cs out ((c, out) ∷ written)

  abbrev pub stored_with : Channel → Pointer → GoString → Store × Result SessionMessage → Channel
  stored_with ch conn sid (s', err e) = ch
  stored_with ch conn sid (s', ok stored) =
      let (hub, conns, closed) = broadcast user_of write_ok ch.hub (user_of conn) in
      record {
        store = s';
        hub = hub;
        written = write_all conns (new_message sid stored) ch.written;
      }

  -- One message of the client, which may not decode.
  unfoldable pub on_message : Channel → Pointer → Option ClientMessage → GoString → ℕ → Channel
  on_message ch conn none new_id now = ch
  on_message ch conn (some msg) new_id now =
      let stored =
        stored_with ch conn msg.sid
          (append_message ch.store (user_of conn) msg.sid msg.message new_id now) in
      if msg.type_name == codes "ping"
      then record ch { written = (conn, pong) ∷ ch.written }
      else if not (msg.type_name == codes "message")
      then ch
      else if is_empty msg.sid || is_empty msg.message
      then ch
      else stored

  -- the loop of `Serve`, between the registration and its end
  unfoldable pub on_messages :
      Channel → Pointer → List (Option ClientMessage × GoString × ℕ) → Channel
  on_messages ch conn [] = ch
  on_messages ch conn ((msg, new_id, now) ∷ rest) =
      on_messages (on_message ch conn msg new_id now) conn rest

  unfoldable pub serve_channel :
      Channel → Pointer → List (Option ClientMessage × GoString × ℕ) → Channel
  unfolding on_messages
  serve_channel ch conn messages =
      let registered : Channel = record ch { hub = register user_of ch.hub conn } in
      let done = on_messages registered conn messages in
      record done { hub = unregister user_of done.hub conn }
