-- ===== src/Store/Messages/Conversation.antt =====
-- The messages of a session: what `AppendMessage` adds and what `ListMessages` shows.
use happy_server_lite.Base.{
  ℕ, ◌+◌, ◌<◌, ◌≡◌, ◌≢◌, ◌⊎◌, refl, ap, GoString, ◌==◌, ==_iff, none, some, false, not, List, [],
  ◌∷◌, ◌++◌, length, length-append, slt, inc64, two_63, if◌then◌else◌, inl, inr, Bool-cases,
  Option-cases, lookup, get_or, lookup-insert, lookup-insert_self, arith,
}
use happy_server_lite.Model.{Session, SessionMessage}
use happy_server_lite.Store.State.{Store, ok, err, session_not_found}
use happy_server_lite.Store.Sessions.{get_session}
use happy_server_lite.Store.Sessions.Views.{get_session-found, accessible_iff}
use happy_server_lite.Store.Messages.{append_message}
use happy_server_lite.Store.Messages.Numbering.{Numbered, Numbered-append}

abbrev pub messages_of : Store → GoString → List SessionMessage
messages_of s sid = get_or sid [] s.messages

abbrev pub count_of : Store → GoString → ℕ
count_of s sid = get_or sid 0 s.seq

-- The messages of a live session are numbered from 1 without a gap up to the session's counter, and
-- an identifier that no session has has neither messages nor a counter.
pub record Numbering (s : Store) : Type 0 where
  pub numbered :
      (sid : GoString) (sess : Session)
      → lookup sid s.sessions_by_id ≡ some sess
      → sess.deleted ≡ false
      → Numbered 0 (messages_of s sid) × (length (messages_of s sid) ≡ count_of s sid)
  pub unused :
      (sid : GoString)
      → lookup sid s.sessions_by_id ≡ none
      → (messages_of s sid ≡ []) × (count_of s sid ≡ 0)

-- `limit <= 0` stands for 100.
abbrev pub effective : ℕ → ℕ
effective limit = if not (slt 0 limit) then 100 else limit

-- An append to a readable session returns the message with the next number, adds it at the end, and
-- leaves every other conversation and every other counter; without such a session it fails and
-- changes nothing.
pub append_message-append :
    (s : Store) (user_id sid content new_id : GoString) (now : ℕ)
    → let (s', result) = append_message s user_id sid content new_id now in
      ((get_session s user_id sid ≡ none) × (result ≡ err session_not_found) × (s' ≡ s))
      ⊎ ((sess : Session) × (msg : SessionMessage) × (get_session s user_id sid ≡ some sess)
          × (result ≡ ok msg)
          × (msg.seq ≡ inc64 (count_of s sid))
          × (msg.content ≡ content)
          × (messages_of s' sid ≡ messages_of s sid ++ msg ∷ [])
          × (count_of s' sid ≡ inc64 (count_of s sid))
          × (s'.sessions_by_id ≡ s.sessions_by_id)
          × ((j : GoString)
              → j ≢ sid
              → (messages_of s' j ≡ messages_of s j) × (count_of s' j ≡ count_of s j)))
unfolding append_message
append_message-append s user_id sid content new_id now =
    elim (Option-cases (get_session s user_id sid)) [
      | inl e ↦ inl (e, ground arith, ground arith)
      | inr (sess, e) ↦
          let n : ℕ = inc64 (count_of s sid) in
          let msg : SessionMessage = record {
            id = new_id;
            session_id = sid;
            seq = n;
            content = content;
            created_at = now;
            updated_at = now;
          } in
          let longer = messages_of s sid ++ msg ∷ [] in
          inr (
            sess,
            msg,
            e,
            ground arith,
            refl,
            refl,
            ground (arith, e, lookup-insert_self sid longer s.messages),
            ground (arith, e, lookup-insert_self sid n s.seq),
            ground (arith, e),
            λ j h. (
              ground (arith, e, lookup-insert j sid longer s.messages, ==_iff sid j),
              ground (arith, e, lookup-insert j sid n s.seq, ==_iff sid j),
            ),
          )
    ]

module _ {s s' : Store} (v : Numbering s) (sid : GoString) (sess : Session)
    (msg : SessionMessage) where
  appended-Numbering :
      lookup sid s.sessions_by_id ≡ some sess
      → sess.deleted ≡ false
      → count_of s sid + 1 < two_63
      → msg.seq ≡ inc64 (count_of s sid)
      → messages_of s' sid ≡ messages_of s sid ++ msg ∷ []
      → count_of s' sid ≡ inc64 (count_of s sid)
      → s'.sessions_by_id ≡ s.sessions_by_id
      → ((j : GoString)
          → j ≢ sid
          → (messages_of s' j ≡ messages_of s j) × (count_of s' j ≡ count_of s j))
      → Numbering s'
  appended-Numbering found live small number longer counted sessions others = record {
    numbered = λ j x stored alive. elim (Bool-cases (j == sid)) [
      | inl here ↦
          let (old, total) = v.numbered sid sess found live in
          rw ((==_iff j sid).0 here) (
            rw (longer, counted)
              (
                Numbered-append 0 (messages_of s sid) msg old (omega arith),
                omega (arith, length-append (messages_of s sid) (msg ∷ [])),
              ))
      | inr there ↦
          let (same, count) = others j (λ p. cc ((==_iff j sid).1 p, there)) in
          rw (same, count) (v.numbered j x (rw (← sessions) stored) alive)
    ];
    unused = λ j missing.
        let gone : lookup j s.sessions_by_id ≡ none = rw (← sessions) missing in
        let (same, count) =
          others j (λ p. cc (ap (λ (k : GoString). lookup k s.sessions_by_id) p, gone, found)) in
        rw (same, count) (v.unused j gone);
  }

-- Below 2 ^ 63 - 1 messages in the session, an append keeps the numbering: the messages of a live
-- session are numbered from 1 without a gap up to its counter.
pub append_message-Numbering :
    (s : Store) (user_id sid content new_id : GoString) (now : ℕ)
    → Numbering s
    → count_of s sid + 1 < two_63
    → Numbering (append_message s user_id sid content new_id now).0
append_message-Numbering s user_id sid content new_id now v small =
    elim (append_message-append s user_id sid content new_id now) [
      | inl (_, _, same) ↦ rw same v
      | inr (sess, msg, e, _, number, _, longer, counted, sessions, others) ↦
          let (found, mine) = get_session-found s user_id sid sess e in
          appended-Numbering v sid sess msg found (accessible_iff user_id sess mine).1 small number
            longer counted sessions others
    ]
