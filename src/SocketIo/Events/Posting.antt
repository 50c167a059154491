-- ===== src/SocketIo/Events/Posting.antt =====
-- A message that a client sends to a session, and what the others are told of it.
use happy_server_lite.Base.{
  codes, is_empty, ◌≡◌, refl, sym, ap, subst, true, false, none, some, ◌⊎◌, inl, inr, [], ◌∷◌, ◌++◌,
  inc64, arith, Bool-cases,
}
use happy_server_lite.Json.{Json, obj}
use happy_server_lite.Model.{Session, SessionMessage}
use happy_server_lite.Store.State.{Store, StoreError, Result, ok, err}
use happy_server_lite.Store.Sessions.{get_session}
use happy_server_lite.Store.Messages.{append_message}
use happy_server_lite.Store.Messages.Conversation.{messages_of, append_message-append}
use happy_server_lite.SocketIo.Protocol.{Codec}
use happy_server_lite.SocketIo.Connections.{Conn}
use happy_server_lite.SocketIo.Events.Bodies.{MessageBody, sessions, World, Handled, Inputs}
use happy_server_lite.SocketIo.Events.Updates.{
  announce, appended, session_message, may_write, message_json, to_rooms, update_packet,
}

module _ (json : Codec Json) (inp : Inputs) (c : Conn) (w : World) (body : MessageBody) where
  -- the update that tells of a message
  abbrev pub post : SessionMessage → Json
  post msg = obj (
      (codes "t", Json.string (codes "new-message"))
      ∷ (codes "sid", Json.string body.sid)
      ∷ (codes "message", message_json json msg body.local_id)
      ∷ [])

  -- The message is stored behind those of its session, and told with the next update number.
  pub record Posts (done : Handled) : Type 0 where
    pub msg : SessionMessage
    pub content : msg.content ≡ body.message
    pub stored : messages_of done.0.store body.sid ≡ messages_of w.store body.sid ++ msg ∷ []
    pub numbered : done.0.update_seq ≡ inc64 w.update_seq
    pub told :
        done.1
        ≡ to_rooms json sessions body.sid c.user_id
            (update_packet json inp (inc64 w.update_seq) (post msg))

  appended-ok :
      (out : Store × Result SessionMessage) (msg : SessionMessage)
      → out.1 ≡ ok msg
      → appended json inp c w body out
        ≡ announce json inp c (record w { store = out.0 }) sessions body.sid (post msg)
  appended-ok (s', err e) msg h = absurd (ground (arith, h))
  appended-ok (s', ok m) msg h = ap (λ x. appended json inp c w body (s', x)) h

  appended-err :
      (out : Store × Result SessionMessage) (e : StoreError)
      → out.1 ≡ err e
      → appended json inp c w body out ≡ (w, [])
  appended-err (s', err d) e h = refl
  appended-err (s', ok m) e h = absurd (ground (arith, h))

  announce-Posts :
      (s' : Store) (msg : SessionMessage)
      → msg.content ≡ body.message
      → messages_of s' body.sid ≡ messages_of w.store body.sid ++ msg ∷ []
      → Posts (announce json inp c (record w { store = s' }) sessions body.sid (post msg))
  unfolding announce
  announce-Posts s' msg content longer = record {
    msg = msg;
    content = content;
    stored = longer;
    numbered = refl;
    told = refl;
  }

  allowed :
      (sess : Session)
      → is_empty body.sid ≡ false
      → may_write json w c body.sid ≡ true
      → get_session w.store c.user_id body.sid ≡ some sess
      → ((is_empty body.sid ≡ true)
          ⊎ (may_write json w c body.sid ≡ false)
          ⊎ (get_session w.store c.user_id body.sid ≡ none))
      → ⊥
  allowed sess named may found (inl e) = absurd (ground (arith, named, e))
  allowed sess named may found (inr (inl e)) = absurd (ground (arith, may, e))
  allowed sess named may found (inr (inr e)) = absurd (ground (arith, found, e))

  -- A message is ignored, without any change or effect, exactly if it names no session, the client may
  -- not write to the session, or its user cannot read it; otherwise it is stored behind the messages of
  -- the session, and takes the next update number, under which it is told to the session's room and to
  -- the user's.
  pub session_message-Posts :
      let done = session_message json inp c w (some body) in
      let ignored =
        (is_empty body.sid ≡ true)
        ⊎ (may_write json w c body.sid ≡ false)
        ⊎ (get_session w.store c.user_id body.sid ≡ none) in
      ((done ≡ (w, [])) × ignored) ⊎ ((ignored → ⊥) × Posts done)
  unfolding session_message
  session_message-Posts =
      let out = append_message w.store c.user_id body.sid body.message inp.message_id inp.now in
      elim (Bool-cases (is_empty body.sid)) [
        | inl e ↦ inl (rw e refl, inl e)
        | inr named ↦ elim (Bool-cases (may_write json w c body.sid)) [
          | inr shut ↦ inl (rw (named, shut) refl, inr (inl shut))
          | inl may ↦
              elim (append_message-append w.store c.user_id body.sid body.message inp.message_id
                inp.now) [
                  | inl (hidden, r, same) ↦
                      inl (rw (named, may) (appended-err out _ r), inr (inr hidden))
                  | inr (sess, msg, found, r, n, content, longer, counted, same, rest) ↦ inr (
                    allowed sess named may found,
                    rw (named, may)
                        (subst Posts (sym (appended-ok out msg r))
                          (announce-Posts out.0 msg content longer)),
                  )
                ]
        ]
      ]
