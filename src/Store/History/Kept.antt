-- ===== src/Store/History/Kept.antt =====
-- Every operation keeps the index and the numbering.
use mathlib.Core.Path.{subst₂}
use happy_server_lite.Base.{
  ℕ, GoString, is_empty, ◌==◌, ==_iff, ◌≡◌, refl, sym, subst, Option, none, some, Bool, true, false,
  inl, inr, ◌⊎◌, List, [], ◌∷◌, ◌+◌, ◌<◌, lookup, insert, delete, get_or, lookup-insert,
  lookup-delete, if◌then◌else◌, arith, Option-cases, Bool-cases, two_63, length,
}
use happy_server_lite.Model.{Session, SessionMessage}
use happy_server_lite.Store.State.{Store, empty_store, user_tag_key}
use happy_server_lite.Store.Sessions.{
  SessionRequest, put_session, get_session, refresh_session, create_session, get_or_create_locked,
  get_or_create_session, delete_session,
}
use happy_server_lite.Store.Sessions.Views.{get_session-found}
use happy_server_lite.Store.Sessions.Index.{IsIndexed}
use happy_server_lite.Store.Sessions.Lifecycle.{
  Indexed, Rewrites, nothing, rewrites, Rewrites-Indexed, update_session_metadata-Rewrites,
  update_session_agent_state-Rewrites, set_session_active-Rewrites, delete_session-Indexed,
  refresh_session-stored,
}
use happy_server_lite.Store.Sessions.Creation.{
  get_or_create_locked_cases, get_or_create_session-Created,
}
use happy_server_lite.Store.Messages.{append_message}
use happy_server_lite.Store.Messages.Numbering.{Numbered}
use happy_server_lite.Store.Messages.Conversation.{
  Numbering, messages_of, count_of, append_message-Numbering,
}
use happy_server_lite.Store.History.{
  Operation, create, set_metadata, set_agent_state, set_active, remove, post, act, history, Allowed,
  AllAllowed,
}

-- A store with the same messages and counters is numbered too if each of its live sessions was live
-- before or is new, and if no session is gone.
Numbering-kept :
    (s s' : Store)
    → Numbering s
    → s'.messages ≡ s.messages
    → s'.seq ≡ s.seq
    → ((sid : GoString) (sess : Session)
        → lookup sid s'.sessions_by_id ≡ some sess
        → sess.deleted ≡ false
        → (lookup sid s.sessions_by_id ≡ none)
          ⊎ ((old : Session) × (lookup sid s.sessions_by_id ≡ some old) × (old.deleted ≡ false)))
    → ((sid : GoString) → lookup sid s'.sessions_by_id ≡ none → lookup sid s.sessions_by_id ≡ none)
    → Numbering s'
Numbering-kept s s' v same counters live gone = record {
  numbered = λ sid sess h l. elim (live sid sess h l) [
    | inl new ↦
        let (nothing_there, zero_count) = v.unused sid new in
        rw (same, counters, nothing_there, zero_count) (tt, refl)
    | inr (old, e, alive) ↦ rw (same, counters) (v.numbered sid old e alive)
  ];
  unused = λ sid h. rw (same, counters) (v.unused sid (gone sid h));
}

put_session-Numbering :
    (s : Store) (sid : GoString) (sess sess' : Session)
    → lookup sid s.sessions_by_id ≡ some sess
    → sess'.deleted ≡ sess.deleted
    → Numbering s
    → Numbering (put_session s sid sess')
put_session-Numbering s sid sess sess' e d v =
    Numbering-kept s (put_session s sid sess') v refl refl
      (λ j x h l. elim (Option-cases (lookup j s.sessions_by_id)) [
        | inl none_there ↦ inl none_there
        | inr (old, found) ↦ inr (
          old,
          found,
          ground
              (arith, h, l, d, e, found, lookup-insert j sid sess' s.sessions_by_id, ==_iff sid j),
        )
      ])
      (λ j h. ground (arith, h, lookup-insert j sid sess' s.sessions_by_id, ==_iff sid j))

Rewrites-Numbering :
    (s : Store) (user_id sid : GoString) (s' : Store)
    → Rewrites s user_id sid s'
    → Numbering s
    → Numbering s'
Rewrites-Numbering s user_id sid s' (nothing e) v = subst Numbering (sym e) v
Rewrites-Numbering s user_id sid s' (rewrites sess sess' found same e) v =
    let (stored, mine) = get_session-found s user_id sid sess found in
    subst Numbering (sym e) (put_session-Numbering s sid sess sess' stored same.deleted v)

abbrev pub deleted_from : Store → GoString → GoString → ℕ → Option Session → Store
deleted_from s user_id sid now none = s
deleted_from s user_id sid now (some sess) =
    let key = user_tag_key user_id sess.tag in
    record s {
      sessions_by_id =
          insert sid (record sess { deleted = true; updated_at = now }) s.sessions_by_id;
      session_id_by_user_tag =
          if get_or key [] s.session_id_by_user_tag == sid
          then delete key s.session_id_by_user_tag
          else s.session_id_by_user_tag;
      messages = delete sid s.messages;
    }

messages_marked :
    (s : Store) (user_id sid : GoString) (now : ℕ) (sess : Session) (j : GoString)
    → (sid == j) ≡ false
    → messages_of (deleted_from s user_id sid now (some sess)) j ≡ messages_of s j
messages_marked s user_id sid now sess j other =
    ground (arith, lookup-delete j sid s.messages, other)

marked-Numbering :
    (s : Store) (user_id sid : GoString) (now : ℕ) (sess : Session)
    → Numbering s
    → Numbering (deleted_from s user_id sid now (some sess))
marked-Numbering s user_id sid now sess v =
    let marked : Session = record sess { deleted = true; updated_at = now } in
    let read = λ (j : GoString). lookup-insert j sid marked s.sessions_by_id in
    record {
      numbered = λ j x h l. elim (Bool-cases (sid == j)) [
        | inl here ↦ absurd (ground (arith, h, l, here, read j))
        | inr other ↦
            subst (λ (ms : List SessionMessage). Numbered 0 ms × (length ms ≡ count_of s j))
              (sym (messages_marked s user_id sid now sess j other))
              (v.numbered j x (ground (arith, h, other, read j)) l)
      ];
      unused = λ j h. elim (Bool-cases (sid == j)) [
        | inl here ↦ absurd (ground (arith, h, here, read j))
        | inr other ↦
            subst (λ (ms : List SessionMessage). (ms ≡ []) × (count_of s j ≡ 0))
              (sym (messages_marked s user_id sid now sess j other))
              (v.unused j (ground (arith, h, other, read j)))
      ];
    }

pub delete_session-deleted_from :
    (s : Store) (user_id sid : GoString) (now : ℕ)
    → (delete_session s user_id sid now).0
      ≡ deleted_from s user_id sid now (get_session s user_id sid)
unfolding delete_session
delete_session-deleted_from s user_id sid now = elim (Option-cases (get_session s user_id sid)) [
  | inl e ↦ ground (arith, e)
  | inr (sess, e) ↦ ground (arith, e)
]

delete_session-Numbering :
    (s : Store) (user_id sid : GoString) (now : ℕ)
    → Numbering s
    → Numbering (delete_session s user_id sid now).0
delete_session-Numbering s user_id sid now v =
    let from = λ (o : Option Session). Numbering (deleted_from s user_id sid now o) in
    subst Numbering (sym (delete_session-deleted_from s user_id sid now))
      (elim (Option-cases (get_session s user_id sid)) [
        | inl e ↦ subst from (sym e) v
        | inr (sess, e) ↦ subst from (sym e) (marked-Numbering s user_id sid now sess v)
      ])

create_session-Numbering :
    (s : Store) (r : SessionRequest) (new_id : GoString) (now : ℕ)
    → lookup new_id s.sessions_by_id ≡ none
    → Numbering s
    → Numbering (create_session s r new_id now).0
unfolding create_session
create_session-Numbering s r new_id now fresh v =
    let (s', sess, created) = create_session s r new_id now in
    Numbering-kept s s' v refl refl
      (λ j x h l. elim (Bool-cases (new_id == j)) [
        | inl here ↦ inl (
            subst (λ (k : GoString). lookup k s.sessions_by_id ≡ none) ((==_iff new_id j).0 here)
              fresh)
        | inr other ↦
            inr (x, ground (arith, h, other, lookup-insert j new_id sess s.sessions_by_id), l)
      ])
      (λ j h. ground (arith, h, lookup-insert j new_id sess s.sessions_by_id))

get_or_create_locked-Numbering :
    (s : Store) (r : SessionRequest) (new_id : GoString) (now : ℕ)
    → Indexed s
    → lookup new_id s.sessions_by_id ≡ none
    → Numbering s
    → Numbering (get_or_create_locked s r new_id now).0
get_or_create_locked-Numbering s r new_id now i fresh v =
    let numbered = λ (out : Store × Session × Bool). Numbering out.0 in
    elim (get_or_create_locked_cases s r new_id now i) [
      | inl (e, q) ↦ subst numbered (sym q) (create_session-Numbering s r new_id now fresh v)
      | inr (sid, sess, e, found, live, own, q) ↦
          let (same, flag, stored) = refresh_session-stored s sid sess r now in
          subst numbered (sym q) (elim stored [
            | inl (p, k) ↦ subst Numbering (sym p) v
            | inr p ↦ subst Numbering (sym p) (
                put_session-Numbering s sid sess (refresh_session s sid sess r now).1 found
                  same.deleted v)
          ])
    ]

pub get_or_create_session_store :
    (s : Store) (r : SessionRequest) (new_id : GoString) (now : ℕ)
    → ((get_or_create_session s r new_id now).0 ≡ s)
      ⊎ ((is_empty r.user_id ≡ false)
          × (is_empty r.tag ≡ false)
          × ((get_or_create_session s r new_id now).0 ≡ (get_or_create_locked s r new_id now).0))
unfolding get_or_create_session
get_or_create_session_store s r new_id now = elim (Bool-cases (is_empty r.user_id)) [
  | inl nobody ↦ inl (rw nobody refl)
  | inr named ↦ elim (Bool-cases (is_empty r.tag)) [
    | inl untagged ↦ inl (rw (named, untagged) refl)
    | inr tagged ↦ inr (named, tagged, rw (named, tagged) refl)
  ]
]

-- The invariant of a store: its index names exactly the live sessions, and the messages of a live
-- session are numbered from 1 without a gap.
pub record IsSound (s : Store) : Type 0 where
  pub indexed : Indexed s
  pub numbering : Numbering s

-- The server starts with a sound store: a load from the file brings machines only.
empty_store-IsSound : (path : GoString) → IsSound (empty_store path)
unfolding lookup
empty_store-IsSound path = record {
  indexed = record {
    own_id = λ sid sess h. absurd (ground (arith, h));
    live_indexed = λ sid sess h l. absurd (ground (arith, h));
    indexed_live = λ k sid h. absurd (ground (arith, h));
  };
  numbering = record {
    numbered = λ sid sess h l. absurd (ground (arith, h));
    unused = λ sid h. (refl, refl);
  };
}

create-IsSound :
    (s : Store) (r : SessionRequest) (new_id : GoString) (now : ℕ)
    → lookup new_id s.sessions_by_id ≡ none
    → IsSound s
    → IsSound (get_or_create_session s r new_id now).0
create-IsSound s r new_id now fresh v = elim (get_or_create_session_store s r new_id now) [
  | inl q ↦ subst IsSound (sym q) v
  | inr (named, tagged, q) ↦
      let (sess, created, result, made) =
        get_or_create_session-Created s r new_id now v.indexed named tagged fresh in
      record {
        indexed = made.indexed;
        numbering =
            subst Numbering (sym q)
              (get_or_create_locked-Numbering s r new_id now v.indexed fresh v.numbering);
      }
]

rewritten-IsSound :
    (s : Store) (user_id sid : GoString) (s' : Store)
    → Rewrites s user_id sid s'
    → IsSound s
    → IsSound s'
rewritten-IsSound s user_id sid s' r v = record {
  indexed = Rewrites-Indexed s user_id sid s' r v.indexed;
  numbering = Rewrites-Numbering s user_id sid s' r v.numbering;
}

append_message_maps :
    (s : Store) (user_id sid content new_id : GoString) (now : ℕ)
    → ((append_message s user_id sid content new_id now).0.sessions_by_id ≡ s.sessions_by_id)
      × ((append_message s user_id sid content new_id now).0.session_id_by_user_tag
          ≡ s.session_id_by_user_tag)
unfolding append_message
append_message_maps s user_id sid content new_id now =
    elim (Option-cases (get_session s user_id sid)) [
      | inl e ↦ (ground (arith, e), ground (arith, e))
      | inr (sess, e) ↦ (ground (arith, e), ground (arith, e))
    ]

post-IsSound :
    (s : Store) (user_id sid content new_id : GoString) (now : ℕ)
    → count_of s sid + 1 < two_63
    → IsSound s
    → IsSound (append_message s user_id sid content new_id now).0
post-IsSound s user_id sid content new_id now small v =
    let (sessions, tags) = append_message_maps s user_id sid content new_id now in
    record {
      indexed = subst₂ IsIndexed (sym sessions) (sym tags) v.indexed;
      numbering = append_message-Numbering s user_id sid content new_id now v.numbering small;
    }

act-IsSound : (s : Store) (o : Operation) → Allowed s o → IsSound s → IsSound (act s o)
unfolding act
act-IsSound s (create r new_id now) fresh v = create-IsSound s r new_id now fresh v
act-IsSound s (set_metadata u sid e m now) a v =
    rewritten-IsSound s u sid _ (update_session_metadata-Rewrites s u sid e m now) v
act-IsSound s (set_agent_state u sid e x now) a v =
    rewritten-IsSound s u sid _ (update_session_agent_state-Rewrites s u sid e x now) v
act-IsSound s (set_active u sid active at now) a v =
    rewritten-IsSound s u sid _ (set_session_active-Rewrites s u sid active at now) v
act-IsSound s (remove u sid now) a v = record {
  indexed = delete_session-Indexed s u sid now v.indexed;
  numbering = delete_session-Numbering s u sid now v.numbering;
}
act-IsSound s (post u sid content new_id now) small v =
    post-IsSound s u sid content new_id now small v

-- Whatever creations, updates, deletions and appends users make, in any order, on a sound store, with
-- fresh identifiers and below 2 ^ 63 - 1 messages a session: the store stays sound.
pub history-IsSound :
    (s : Store) (os : List Operation) → AllAllowed s os → IsSound s → IsSound (history s os)
unfolding history
history-IsSound s [] a v = v
history-IsSound s (o ∷ os) a v = history-IsSound (act s o) os a.1 (act-IsSound s o a.0 v)
