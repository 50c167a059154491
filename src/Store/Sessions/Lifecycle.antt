-- ===== src/Store/Sessions/Lifecycle.antt =====
-- Every operation on sessions keeps the index, and what a creation returns.
use mathlib.Core.Path.{subst₂}
use happy_server_lite.Base.{
  ℕ, GoString, ==_iff, ◌≡◌, refl, ap, sym, ◌∙◌, ◌⊎◌, Option, none, some, Bool, true, false, inl,
  inr, Bool-cases, Option-cases, insert, inc64, if◌then◌else◌, arith, eqb,
}
use happy_server_lite.Model.{Session}
use happy_server_lite.Store.State.{Store, user_tag_key}
use happy_server_lite.Store.Sessions.{
  SessionRequest, put_session, get_session, refresh_metadata, refresh_agent_state, refresh_key,
  refresh_session, update_session_metadata, update_session_agent_state, set_session_active,
  delete_session,
}
use happy_server_lite.Store.Sessions.Views.{get_session-found, accessible_iff}
use happy_server_lite.Store.Sessions.Index.{IsIndexed, key_of, IsIndexed-replace, IsIndexed-delete}

abbrev pub Indexed : Store → Type 0
Indexed s = IsIndexed s.sessions_by_id s.session_id_by_user_tag

-- What a refresh never changes.
pub record SameIdentity (a b : Session) : Type 0 where
  pub id : a.id ≡ b.id
  pub user_id : a.user_id ≡ b.user_id
  pub tag : a.tag ≡ b.tag
  pub deleted : a.deleted ≡ b.deleted

-- A stage of the refresh: it keeps the identity, and it keeps all if the flag stays down.
record Refreshed (p q : Session × Bool) : Type 0 where
  same : SameIdentity q.0 p.0
  unchanged : q.1 ≡ false → q ≡ p

Refreshed-trans : (p q r : Session × Bool) → Refreshed p q → Refreshed q r → Refreshed p r
Refreshed-trans p q r f g = record {
  same = ground (arith, f.same, g.same);
  unchanged =
      λ h. let e = g.unchanged h in e ∙ f.unchanged (sym (ap (λ (t : Session × Bool). t.1) e) ∙ h);
}

refresh_metadata-Refreshed :
    (m : GoString) (sess : Session) (c : Bool) → Refreshed (sess, c) (refresh_metadata m (sess, c))
unfolding refresh_metadata
refresh_metadata-Refreshed m sess c = ground arith

refresh_agent_state-Refreshed :
    (a : Option GoString) (sess : Session) (c : Bool)
    → Refreshed (sess, c) (refresh_agent_state a (sess, c))
unfolding refresh_agent_state
refresh_agent_state-Refreshed none sess c = ground arith
refresh_agent_state-Refreshed (some a) sess c = ground arith

refresh_key-Refreshed :
    (k : Option GoString) (sess : Session) (c : Bool)
    → Refreshed (sess, c) (refresh_key k (sess, c))
unfolding refresh_key
refresh_key-Refreshed none sess c = ground arith
refresh_key-Refreshed (some k) sess c = ground arith

-- the three stages together
abbrev refreshed : Session → SessionRequest → Session × Bool
refreshed sess r =
    refresh_key r.data_encryption_key
      (refresh_agent_state r.agent_state (refresh_metadata r.metadata (sess, false)))

refreshed-Refreshed :
    (sess : Session) (r : SessionRequest) → Refreshed (sess, false) (refreshed sess r)
refreshed-Refreshed sess r =
    let p = refresh_metadata r.metadata (sess, false) in
    let q = refresh_agent_state r.agent_state p in
    Refreshed-trans (sess, false) q (refreshed sess r)
      (Refreshed-trans (sess, false) p q (refresh_metadata-Refreshed r.metadata sess false)
        (refresh_agent_state-Refreshed r.agent_state p.0 p.1))
      (refresh_key-Refreshed r.data_encryption_key q.0 q.1)

-- A refresh returns the session that it leaves in the store, not marked as created.
pub refresh_session-stored :
    (s : Store) (sid : GoString) (sess : Session) (r : SessionRequest) (now : ℕ)
    → let (s', sess', created) = refresh_session s sid sess r now in
      SameIdentity sess' sess
      × (created ≡ false)
      × (((s' ≡ s) × (sess' ≡ sess)) ⊎ (s' ≡ put_session s sid sess'))
unfolding refresh_session
refresh_session-stored s sid sess r now =
    let f = refreshed-Refreshed sess r in
    elim (Bool-cases (refreshed sess r).1) [
      | inl changed ↦
          (ground (arith, changed, f.same), ground (arith, changed), inr (ground (arith, changed)))
      | inr same ↦
          let e = f.unchanged same in
          (
            ground (arith, same, f.same),
            ground (arith, same),
            inl (ground (arith, same), ground (arith, same, e)),
          )
    ]

-- What an update of session `sid` by `user_id` does to the store: nothing, or it rewrites the
-- session, which the user can read, and keeps its identity.
pub data Rewrites (s : Store) (user_id sid : GoString) (s' : Store) : Type 0 where
  nothing : s' ≡ s → Rewrites s user_id sid s'
  rewrites :
      (sess sess' : Session)
      → get_session s user_id sid ≡ some sess
      → SameIdentity sess' sess
      → s' ≡ put_session s sid sess'
      → Rewrites s user_id sid s'

-- An update keeps the index.
pub Rewrites-Indexed :
    (s : Store) (user_id sid : GoString) (s' : Store)
    → Rewrites s user_id sid s'
    → Indexed s
    → Indexed s'
Rewrites-Indexed s user_id sid s' (nothing e) v = rw e v
Rewrites-Indexed s user_id sid s' (rewrites sess sess' e same p) v = rw p (
    IsIndexed-replace v sid sess sess' (get_session-found s user_id sid sess e).0 same.id
      (cc (same.user_id, same.tag)) same.deleted)

module _ (s : Store) (user_id sid : GoString) where
  pub update_session_metadata-Rewrites :
      (expected : ℕ) (metadata : GoString) (now : ℕ)
      → Rewrites s user_id sid (update_session_metadata s user_id sid expected metadata now).0
  unfolding update_session_metadata
  update_session_metadata-Rewrites expected metadata now =
      elim (Option-cases (get_session s user_id sid)) [
        | inl e ↦ nothing (ground arith)
        | inr (sess, e) ↦
            let sess' : Session = record sess {
              metadata = metadata;
              metadata_version = inc64 sess.metadata_version;
              updated_at = now;
            } in
            elim (Bool-cases (eqb expected sess.metadata_version)) [
              | inl hit ↦ rewrites sess sess' e (ground arith) (ground arith)
              | inr miss ↦ nothing (ground arith)
            ]
      ]

  pub update_session_agent_state-Rewrites :
      (expected : ℕ) (agent_state : Option GoString) (now : ℕ)
      → Rewrites s user_id sid (update_session_agent_state s user_id sid expected agent_state now).0
  unfolding update_session_agent_state
  update_session_agent_state-Rewrites expected agent_state now =
      elim (Option-cases (get_session s user_id sid)) [
        | inl e ↦ nothing (ground arith)
        | inr (sess, e) ↦
            let sess' : Session = record sess {
              agent_state = agent_state;
              agent_state_version = inc64 sess.agent_state_version;
              updated_at = now;
            } in
            elim (Bool-cases (eqb expected sess.agent_state_version)) [
              | inl hit ↦ rewrites sess sess' e (ground arith) (ground arith)
              | inr miss ↦ nothing (ground arith)
            ]
      ]

  pub set_session_active-Rewrites :
      (active : Bool) (active_at now : ℕ)
      → Rewrites s user_id sid (set_session_active s user_id sid active active_at now).0
  unfolding set_session_active
  set_session_active-Rewrites active active_at now =
      elim (Option-cases (get_session s user_id sid)) [
        | inl e ↦ nothing (ground arith)
        | inr (sess, e) ↦
            let sess' : Session = record sess {
              active = active;
              active_at = if active then active_at else sess.active_at;
              updated_at = now;
            } in
            rewrites sess sess' e (ground arith) (ground arith)
      ]

  -- A deletion marks the session and frees its key.
  pub delete_session-Indexed : (now : ℕ) → Indexed s → Indexed (delete_session s user_id sid now).0
  unfolding delete_session
  delete_session-Indexed now v = elim (Option-cases (get_session s user_id sid)) [
    | inl e ↦ subst₂ IsIndexed (ground arith) (ground arith) v
    | inr (sess, e) ↦
        let (found, mine) = get_session-found s user_id sid sess e in
        let (own, live) = accessible_iff user_id sess mine in
        let named = v.live_indexed sid sess found live in
        let sess' : Session = record sess { deleted = true; updated_at = now } in
        let key_eq : key_of sess ≡ user_tag_key user_id sess.tag =
          ap (λ (u : GoString). user_tag_key u sess.tag) own in
        subst₂ IsIndexed {x = insert sid sess' s.sessions_by_id} (ground (arith, e))
          (ground (arith, e, key_eq, named, ==_iff sid sid))
          (IsIndexed-delete v sid sess sess' found live refl refl)
  ]

-- The two metadata updates, the activity flag and the deletion, by anybody, keep the index: it names
-- exactly the live sessions, each under the key of its user and tag.
session_updates-Indexed :
    (s : Store) (user_id sid : GoString) (expected : ℕ) (metadata : GoString)
    (agent_state : Option GoString) (active : Bool) (active_at now : ℕ)
    → Indexed s
    → Indexed (update_session_metadata s user_id sid expected metadata now).0
      × Indexed (update_session_agent_state s user_id sid expected agent_state now).0
      × Indexed (set_session_active s user_id sid active active_at now).0
      × Indexed (delete_session s user_id sid now).0
session_updates-Indexed s user_id sid expected metadata agent_state active active_at now v =
    let kept = λ (t : Store) (r : Rewrites s user_id sid t). Rewrites-Indexed s user_id sid t r v in
    (
      kept _ (update_session_metadata-Rewrites s user_id sid expected metadata now),
      kept _ (update_session_agent_state-Rewrites s user_id sid expected agent_state now),
      kept _ (set_session_active-Rewrites s user_id sid active active_at now),
      delete_session-Indexed s user_id sid now v,
    )
