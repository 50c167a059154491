-- ===== src/Store/Isolation/Sessions.antt =====
-- Operations on sessions and messages.
use happy_server_lite.Base.{
  ℕ, GoString, ==_iff, ◌≡◌, ◌≢◌, ◌⊎◌, refl, sym, ap, ◌∙◌, subst, Option, none, some, Bool, true,
  inl, inr, lookup, lookup-insert, lookup-delete, arith, Option-cases,
}
use happy_server_lite.Model.{Session}
use happy_server_lite.Store.State.{Store, user_tag_key}
use happy_server_lite.Store.State.Keys.{NoBar, user_tag_key-injective}
use happy_server_lite.Store.Sessions.{
  SessionRequest, accessible, put_session, get_session, get_or_create_session, create_session,
  refresh_session, update_session_metadata, update_session_agent_state, set_session_active,
  delete_session,
}
use happy_server_lite.Store.Sessions.Views.{get_session-found, accessible_iff}
use happy_server_lite.Store.Sessions.Lifecycle.{
  Indexed, Rewrites, nothing, rewrites, update_session_metadata-Rewrites,
  update_session_agent_state-Rewrites, set_session_active-Rewrites, refresh_session-stored,
}
use happy_server_lite.Store.Sessions.Creation.{get_or_create_locked_cases}
use happy_server_lite.Store.Messages.{append_message}
use happy_server_lite.Store.Messages.Conversation.{append_message-append}
use happy_server_lite.Store.History.Kept.{
  get_or_create_session_store, deleted_from, delete_session-deleted_from,
}
use happy_server_lite.Store.Isolation.{Untouched, same_store-Untouched, session_changes-Untouched}

get_session_of_sessions :
    (s s' : Store) (v j : GoString)
    → s'.sessions_by_id ≡ s.sessions_by_id
    → get_session s' v j ≡ get_session s v j
unfolding get_session
get_session_of_sessions s s' v j e = rw e refl

append_message_elsewhere :
    (s : Store) (u sid content new_id : GoString) (now : ℕ)
    → let s' = (append_message s u sid content new_id now).0 in
      (s'.machines_by_id ≡ s.machines_by_id)
      × (s'.artifacts_by_key ≡ s.artifacts_by_key)
      × (s'.account_settings_by_user_id ≡ s.account_settings_by_user_id)
unfolding append_message
append_message_elsewhere s u sid content new_id now = elim (Option-cases (get_session s u sid)) [
  | inl e ↦ (ground (arith, e), ground (arith, e), ground (arith, e))
  | inr (sess, e) ↦ (ground (arith, e), ground (arith, e), ground (arith, e))
]

module _ (u v : GoString) (other : u ≢ v) where
  -- A session of one user is nothing to another.
  get_session_other :
      (s : Store) (sid : GoString) (sess : Session)
      → get_session s u sid ≡ some sess
      → get_session s v sid ≡ none
  unfolding get_session accessible
  get_session_other s sid sess h =
      ground (arith, h, other, ==_iff sess.user_id u, ==_iff sess.user_id v)

  put_session_get :
      (s : Store) (sid : GoString) (sess sess' : Session) (j : GoString)
      → (lookup sid s.sessions_by_id ≡ none)
        ⊎ ((lookup sid s.sessions_by_id ≡ some sess) × (sess.user_id ≡ u))
      → sess'.user_id ≡ u
      → get_session (put_session s sid sess') v j ≡ get_session s v j
  unfolding get_session accessible
  put_session_get s sid sess sess' j old new = ground (
    arith,
    old,
    new,
    other,
    lookup-insert j sid sess' s.sessions_by_id,
    ==_iff sid j,
    ==_iff sess.user_id v,
    ==_iff sess'.user_id v,
  )

  put_session-Untouched :
      (s : Store) (sid : GoString) (sess sess' : Session)
      → (lookup sid s.sessions_by_id ≡ none)
        ⊎ ((lookup sid s.sessions_by_id ≡ some sess) × (sess.user_id ≡ u))
      → sess'.user_id ≡ u
      → Untouched v s (put_session s sid sess')
  put_session-Untouched s sid sess sess' old new =
      session_changes-Untouched v s (put_session s sid sess') refl refl refl
        (λ j. put_session_get s sid sess sess' j old new) (λ j x h. refl)

  Rewrites-Untouched :
      (s : Store) (sid : GoString) (s' : Store) → Rewrites s u sid s' → Untouched v s s'
  Rewrites-Untouched s sid s' (nothing e) = subst (Untouched v s) (sym e) (same_store-Untouched v s)
  Rewrites-Untouched s sid s' (rewrites sess sess' found same e) =
      let (stored, mine) = get_session-found s u sid sess found in
      let own = (accessible_iff u sess mine).0 in
      subst (Untouched v s) (sym e)
        (put_session-Untouched s sid sess sess' (inr (stored, own)) (same.user_id ∙ own))

  pub update_session_metadata-Untouched :
      (s : Store) (sid : GoString) (expected : ℕ) (metadata : GoString) (now : ℕ)
      → Untouched v s (update_session_metadata s u sid expected metadata now).0
  update_session_metadata-Untouched s sid expected metadata now =
      Rewrites-Untouched s sid _ (update_session_metadata-Rewrites s u sid expected metadata now)

  pub update_session_agent_state-Untouched :
      (s : Store) (sid : GoString) (expected : ℕ) (agent_state : Option GoString) (now : ℕ)
      → Untouched v s (update_session_agent_state s u sid expected agent_state now).0
  update_session_agent_state-Untouched s sid expected agent_state now =
      Rewrites-Untouched s sid _
        (update_session_agent_state-Rewrites s u sid expected agent_state now)

  pub set_session_active-Untouched :
      (s : Store) (sid : GoString) (active : Bool) (active_at now : ℕ)
      → Untouched v s (set_session_active s u sid active active_at now).0
  set_session_active-Untouched s sid active active_at now =
      Rewrites-Untouched s sid _ (set_session_active-Rewrites s u sid active active_at now)

  pub append_message-Untouched :
      (s : Store) (sid content new_id : GoString) (now : ℕ)
      → Untouched v s (append_message s u sid content new_id now).0
  append_message-Untouched s sid content new_id now =
      elim (append_message-append s u sid content new_id now) [
        | inl (e, r, same) ↦ subst (Untouched v s) (sym same) (same_store-Untouched v s)
        | inr (sess, msg, found, r, n, c, longer, counted, sessions, others) ↦
            let (machines, artifacts, settings) =
              append_message_elsewhere s u sid content new_id now in
            let hidden = get_session_other s sid sess found in
            session_changes-Untouched v s _ machines artifacts settings
              (λ j. get_session_of_sessions s _ v j sessions)
              (λ j x h. (others j (λ q. cc (q, h, hidden))).0)
      ]

  deleted-Untouched :
      (s : Store) (sid : GoString) (now : ℕ) (sess : Session)
      → get_session s u sid ≡ some sess
      → Untouched v s (deleted_from s u sid now (some sess))
  deleted-Untouched s sid now sess e =
      let (stored, mine) = get_session-found s u sid sess e in
      let own = (accessible_iff u sess mine).0 in
      let hidden = get_session_other s sid sess e in
      let marked : Session = record sess { deleted = true; updated_at = now } in
      session_changes-Untouched v s (deleted_from s u sid now (some sess)) refl refl refl
        (λ j.
          get_session_of_sessions (put_session s sid marked) _ v j refl
          ∙ put_session_get s sid sess marked j (inr (stored, own)) own)
        (λ j x h.
          ground
            (arith, lookup-delete j sid s.messages, ==_iff sid j, h, hidden, ap (get_session s v)))

  pub delete_session-Untouched :
      (s : Store) (sid : GoString) (now : ℕ) → Untouched v s (delete_session s u sid now).0
  delete_session-Untouched s sid now = elim (Option-cases (get_session s u sid)) [
    | inl e ↦
        let same = delete_session-deleted_from s u sid now in
        subst (Untouched v s) (sym (same ∙ ap (deleted_from s u sid now) e))
          (same_store-Untouched v s)
    | inr (sess, e) ↦
        let same = delete_session-deleted_from s u sid now in
        subst (Untouched v s) (sym (same ∙ ap (deleted_from s u sid now) e))
          (deleted-Untouched s sid now sess e)
  ]

  create_session-Untouched :
      (s : Store) (r : SessionRequest) (new_id : GoString) (now : ℕ)
      → r.user_id ≡ u
      → lookup new_id s.sessions_by_id ≡ none
      → Untouched v s (create_session s r new_id now).0
  unfolding create_session
  create_session-Untouched s r new_id now by fresh =
      let (s', sess, created) = create_session s r new_id now in
      session_changes-Untouched v s s' refl refl refl
        (λ j.
          get_session_of_sessions (put_session s new_id sess) s' v j refl
          ∙ put_session_get s new_id sess sess j (inl fresh) by)
        (λ j x h. refl)

  -- A creation by one user, with a fresh identifier, is nothing to another, if neither identifier
  -- holds a bar.
  pub get_or_create_session-Untouched :
      (s : Store) (r : SessionRequest) (new_id : GoString) (now : ℕ)
      → r.user_id ≡ u
      → NoBar u
      → Indexed s
      → lookup new_id s.sessions_by_id ≡ none
      → ((sid : GoString) (sess : Session)
          → lookup sid s.sessions_by_id ≡ some sess
          → NoBar sess.user_id)
      → Untouched v s (get_or_create_session s r new_id now).0
  get_or_create_session-Untouched s r new_id now by plain i fresh plain_users =
      elim (get_or_create_session_store s r new_id now) [
        | inl q ↦ subst (Untouched v s) (sym q) (same_store-Untouched v s)
        | inr (named, tagged, q) ↦
            subst (Untouched v s) (sym q) (elim (get_or_create_locked_cases s r new_id now i) [
              | inl (e, k) ↦
                  subst (λ (out : Store × Session × Bool). Untouched v s out.0) (sym k)
                    (create_session-Untouched s r new_id now by fresh)
              | inr (sid, sess, e, found, live, own, k) ↦
                  let owner : sess.user_id ≡ u =
                    (user_tag_key-injective sess.user_id u sess.tag r.tag
                      (plain_users sid sess found) plain
                      (own ∙ ap (λ (x : GoString). user_tag_key x r.tag) by)).0 in
                  let (same, flag, stored) = refresh_session-stored s sid sess r now in
                  subst (λ (out : Store × Session × Bool). Untouched v s out.0) (sym k)
                    (elim stored [
                      | inl (p, j) ↦ subst (Untouched v s) (sym p) (same_store-Untouched v s)
                      | inr p ↦ subst (Untouched v s) (sym p) (
                          put_session-Untouched s sid sess (refresh_session s sid sess r now).1
                            (inr (found, owner)) (same.user_id ∙ owner))
                    ])
            ])
      ]
