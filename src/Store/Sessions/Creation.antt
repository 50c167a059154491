-- ===== src/Store/Sessions/Creation.antt =====
-- What `GetOrCreateSession` returns, and that it keeps the index.
use happy_server_lite.Base.{
  ℕ, GoString, is_empty, ◌≡◌, refl, ◌∙◌, ◌⊎◌, ◌↔◌, none, some, Bool, true, false, inl, inr,
  Bool-cases, Option-cases, lookup, lookup-insert_self, arith,
}
use happy_server_lite.Model.{Session}
use happy_server_lite.Store.State.{Store, user_tag_key, ok}
use happy_server_lite.Store.Sessions.{
  SessionRequest, put_session, refresh_session, create_session, get_or_create_locked,
  get_or_create_session,
}
use happy_server_lite.Store.Sessions.Index.{key_of, IsIndexed-replace, IsIndexed-create}
use happy_server_lite.Store.Sessions.Lifecycle.{Indexed, SameIdentity, refresh_session-stored}

abbrev pub key : SessionRequest → GoString
key r = user_tag_key r.user_id r.tag

-- The session that a creation in `s` returns, against the store `s'` that it leaves.
pub record Created (s : Store) (r : SessionRequest) (s' : Store) (sess : Session) (created : Bool)
    : Type 0 where
  pub indexed : Indexed s'
  pub stored : lookup sess.id s'.sessions_by_id ≡ some sess
  pub named : lookup (key r) s'.session_id_by_user_tag ≡ some sess.id
  pub live : sess.deleted ≡ false
  pub own : key_of sess ≡ key r
  pub flag : (created ≡ true) ↔ (lookup (key r) s.session_id_by_user_tag ≡ none)
  pub reused : created ≡ false → lookup (key r) s.session_id_by_user_tag ≡ some sess.id

module _ (s : Store) (r : SessionRequest) (new_id : GoString) (now : ℕ) (v : Indexed s) where
  -- A key that the index lacks gets a new session; else its live session is refreshed.
  pub get_or_create_locked_cases :
      ((lookup (key r) s.session_id_by_user_tag ≡ none)
        × (get_or_create_locked s r new_id now ≡ create_session s r new_id now))
      ⊎ ((sid : GoString) × (sess : Session) × (lookup (key r) s.session_id_by_user_tag ≡ some sid)
          × (lookup sid s.sessions_by_id ≡ some sess)
          × (sess.deleted ≡ false)
          × (key_of sess ≡ key r)
          × (get_or_create_locked s r new_id now ≡ refresh_session s sid sess r now))
  unfolding get_or_create_locked
  get_or_create_locked_cases = elim (Option-cases (lookup (key r) s.session_id_by_user_tag)) [
    | inl e ↦ inl (e, ground arith)
    | inr (sid, e) ↦
        let (sess, found, live, own) = v.indexed_live (key r) sid e in
        inr (sid, sess, e, found, live, own, ground (arith, found, live))
  ]

  create_session-Created :
      lookup new_id s.sessions_by_id ≡ none
      → lookup (key r) s.session_id_by_user_tag ≡ none
      → let (s', sess, created) = create_session s r new_id now in Created s r s' sess created
  unfolding create_session
  create_session-Created fresh free = record {
    indexed = IsIndexed-create v new_id _ fresh refl refl free;
    stored = lookup-insert_self new_id _ s.sessions_by_id;
    named = lookup-insert_self (key r) new_id s.session_id_by_user_tag;
    live = refl;
    own = refl;
    flag = (λ _. free, λ _. refl);
    reused = λ h. cc;
  }

  refresh-Created :
      (sid : GoString) (sess sess' : Session) (s' : Store) (created : Bool)
      → lookup (key r) s.session_id_by_user_tag ≡ some sid
      → lookup sid s.sessions_by_id ≡ some sess
      → sess.deleted ≡ false
      → key_of sess ≡ key r
      → SameIdentity sess' sess
      → created ≡ false
      → ((s' ≡ s) × (sess' ≡ sess)) ⊎ (s' ≡ put_session s sid sess')
      → Created s r s' sess' created
  refresh-Created sid sess sess' s' created e found live own same flag (inl (p, q)) =
      let i = v.own_id sid sess found in
      record {
        indexed = rw p v;
        stored = cc (i);
        named = cc (i);
        live = cc;
        own = cc;
        flag = (λ h. cc, λ h. cc);
        reused = λ _. cc (i);
      }
  refresh-Created sid sess sess' s' created e found live own same flag (inr p) =
      let i = same.id ∙ v.own_id sid sess found in
      let k : key_of sess' ≡ key_of sess = cc (same.user_id, same.tag) in
      record {
        indexed = rw p (IsIndexed-replace v sid sess sess' found same.id k same.deleted);
        stored = rw p (simp i (lookup-insert_self sid sess' s.sessions_by_id));
        named = rw p (simp i e);
        live = same.deleted ∙ live;
        own = k ∙ own;
        flag = (λ h. cc, λ h. cc);
        reused = λ _. simp i e;
      }

  -- A creation with a fresh identifier returns the live session of its key, stored and indexed, and
  -- says that it created it exactly when the key had none.
  get_or_create_locked-Created :
      lookup new_id s.sessions_by_id ≡ none
      → let (s', sess, created) = get_or_create_locked s r new_id now in Created s r s' sess created
  get_or_create_locked-Created fresh = elim get_or_create_locked_cases [
    | inl (free, e) ↦ rw e (create_session-Created fresh free)
    | inr (sid, sess, e, found, live, own, q) ↦
        let (same, flag, stored) = refresh_session-stored s sid sess r now in
        rw q (refresh-Created sid sess _ _ _ e found live own same flag stored)
  ]

  -- In an indexed store, for a caller with an identifier and a tag, a creation with a fresh session
  -- identifier succeeds: it returns
  -- the live session of its key, stored and indexed, says that it created it exactly when the key
  -- had none, and keeps the index.
  pub get_or_create_session-Created :
      is_empty r.user_id ≡ false
      → is_empty r.tag ≡ false
      → lookup new_id s.sessions_by_id ≡ none
      → let (s', result) = get_or_create_session s r new_id now in
        (sess : Session) × (created : Bool) × (result ≡ ok (sess, created))
        × Created s r s' sess created
  unfolding get_or_create_session
  get_or_create_session-Created named tagged fresh =
      let (s', sess, created) = get_or_create_locked s r new_id now in
      (
        sess,
        created,
        ground (arith, named, tagged),
        rw (named, tagged) (get_or_create_locked-Created fresh),
      )

-- In an indexed store, where the identifier drawn each time is fresh, the same user and tag again,
-- with any other contents, give the same session back, and create nothing.
pub get_or_create_locked_again :
    (s : Store) (r r2 : SessionRequest) (id id2 : GoString) (now now2 : ℕ)
    → Indexed s
    → r2.user_id ≡ r.user_id
    → r2.tag ≡ r.tag
    → lookup id s.sessions_by_id ≡ none
    → lookup id2 (get_or_create_locked s r id now).0.sessions_by_id ≡ none
    → let (s', sess, created) = get_or_create_locked s r id now in
      let (s2, sess2, created2) = get_or_create_locked s' r2 id2 now2 in
      (sess2.id ≡ sess.id) × (created2 ≡ false)
get_or_create_locked_again s r r2 id id2 now now2 v u t fresh fresh2 =
    let (s', sess, created) = get_or_create_locked s r id now in
    let first = get_or_create_locked-Created s r id now v fresh in
    let (s2, sess2, created2) = get_or_create_locked s' r2 id2 now2 in
    let second = get_or_create_locked-Created s' r2 id2 now2 first.indexed fresh2 in
    let same_key : key r2 ≡ key r = cc (u, t) in
    elim (Bool-cases created2) [
      | inl made ↦ absurd (cc (second.flag.0 made, first.named, same_key))
      | inr reused ↦ (cc (second.reused reused, first.named, same_key), reused)
    ]
