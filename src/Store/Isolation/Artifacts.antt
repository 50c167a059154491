-- ===== src/Store/Isolation/Artifacts.antt =====
-- Operations on artifacts. Here the keys must not meet, so a user's identifier holds no bar.
use happy_server_lite.Base.{
  ℕ, GoString, is_empty, ==_iff, ◌≢◌, refl, subst, true, false, not, ◌||◌, inl, inr, lookup, insert,
  lookup-insert, arith, inc64, Option-cases, Bool-cases,
}
use happy_server_lite.Model.{Artifact}
use happy_server_lite.Store.State.{Store, user_tag_key, Result, ok}
use happy_server_lite.Store.State.Keys.{NoBar, user_tag_key-injective}
use happy_server_lite.Store.Sessions.{get_session}
use happy_server_lite.Store.Messages.{list_messages, get_after}
use happy_server_lite.Store.Machines.{get_machine}
use happy_server_lite.Store.Accounts.{get_account_settings}
use happy_server_lite.Store.Artifacts.{
  ArtifactRequest, ArtifactUpdate, ArtifactUpdateResult, artifact_key, get_artifact,
  create_artifact, add_artifact, update_artifact, delete_artifact, check_header, check_body,
  commit_artifact, Checked, go_on, reply,
}
use happy_server_lite.Store.Isolation.{Untouched, same_store-Untouched, if-Untouched}

module _ (u v : GoString) (other : u ≢ v) (plain_u : NoBar u) (plain_v : NoBar v) where
  keys_apart : (i j : GoString) → artifact_key u i ≢ artifact_key v j
  unfolding artifact_key user_tag_key
  keys_apart i j e = other (user_tag_key-injective u v i j plain_u plain_v e).0

  -- a write under a key of user `u`, with any counter
  written-Untouched :
      (s : Store) (i : GoString) (a : Artifact) (n : ℕ)
      → Untouched v s (record s {
        artifact_seq = n;
        artifacts_by_key = insert (artifact_key u i) a s.artifacts_by_key;
      })
  unfolding get_artifact get_machine get_session get_account_settings list_messages get_after
  written-Untouched s i a n = record {
    sessions = λ j. refl;
    messages = λ j after limit. refl;
    machines = λ j. refl;
    artifacts = λ j. ground (
      arith,
      lookup-insert (artifact_key v j) (artifact_key u i) a s.artifacts_by_key,
      ==_iff (artifact_key u i) (artifact_key v j),
      keys_apart i j,
    );
    settings = refl;
  }

  pub delete_artifact-Untouched :
      (s : Store) (i : GoString) → Untouched v s (delete_artifact s u i).0
  unfolding delete_artifact
  delete_artifact-Untouched s i = elim (Option-cases (get_artifact s u i)) [
    | inl e ↦ subst (Untouched v s) (ground (arith, e)) (same_store-Untouched v s)
    | inr (a, e) ↦ elim (Bool-cases (is_empty u || is_empty i)) [
      | inl empty ↦ subst (Untouched v s) (ground (arith, e, empty)) (same_store-Untouched v s)
      | inr named ↦
          subst (Untouched v s) (ground (arith, e, named))
            (written-Untouched s i (record a { deleted = true }) s.artifact_seq)
    ]
  ]

module _ (v : GoString) (s : Store) (plain_v : NoBar v) where
  added-Untouched :
      (r : ArtifactRequest) (now : ℕ)
      → r.user_id ≢ v
      → NoBar r.user_id
      → Untouched v s (add_artifact s r now).0
  unfolding add_artifact
  added-Untouched r now other plain =
      let a : Artifact = record {
        id = r.artifact_id;
        user_id = r.user_id;
        header = r.header;
        header_version = 1;
        body = r.body;
        body_version = 1;
        data_encryption_key = r.data_encryption_key;
        seq = inc64 s.artifact_seq;
        created_at = now;
        updated_at = now;
        deleted = false;
      } in
      written-Untouched r.user_id v other plain plain_v s r.artifact_id a (inc64 s.artifact_seq)

  pub create_artifact-Untouched :
      (r : ArtifactRequest) (now : ℕ)
      → r.user_id ≢ v
      → NoBar r.user_id
      → Untouched v s (create_artifact s r now).0
  unfolding create_artifact
  create_artifact-Untouched r now other plain =
      let kept = same_store-Untouched v s in
      let (s', made) = add_artifact s r now in
      let added : Untouched v s s' = added-Untouched r now other plain in
      if-Untouched v s (is_empty r.user_id) _ _ kept (
        if-Untouched v s (is_empty r.artifact_id) _ _ kept (
          if-Untouched v s (is_empty r.header || is_empty r.body || is_empty r.data_encryption_key)
            _ _ kept
            (elim (Option-cases
              (lookup (artifact_key r.user_id r.artifact_id) s.artifacts_by_key)) [
                | inl e ↦ rw e added
                | inr (a, e) ↦ rw e (if-Untouched v s (not a.deleted) _ _ kept added)
              ])))

  -- the rest of an update, for either outcome of each check
  abbrev after_body : ArtifactUpdate → ℕ → Checked → Store × Result ArtifactUpdateResult
  after_body r now (reply res) = (s, ok res)
  after_body r now (go_on a) = commit_artifact s r a now

  after_body-Untouched :
      (r : ArtifactUpdate) (now : ℕ) (c : Checked)
      → r.user_id ≢ v
      → NoBar r.user_id
      → Untouched v s (after_body r now c).0
  unfolding commit_artifact
  after_body-Untouched r now (reply res) other plain = same_store-Untouched v s
  after_body-Untouched r now (go_on a) other plain =
      written-Untouched r.user_id v other plain plain_v s r.artifact_id
        (record a { updated_at = now; seq = inc64 s.artifact_seq }) (inc64 s.artifact_seq)

  abbrev after_header : ArtifactUpdate → ℕ → Checked → Store × Result ArtifactUpdateResult
  after_header r now (reply res) = (s, ok res)
  after_header r now (go_on a) = after_body r now (check_body r.body r.expected_body_version a)

  after_header-Untouched :
      (r : ArtifactUpdate) (now : ℕ) (c : Checked)
      → r.user_id ≢ v
      → NoBar r.user_id
      → Untouched v s (after_header r now c).0
  after_header-Untouched r now (reply res) other plain = same_store-Untouched v s
  after_header-Untouched r now (go_on a) other plain =
      after_body-Untouched r now (check_body r.body r.expected_body_version a) other plain

  pub update_artifact-Untouched :
      (r : ArtifactUpdate) (now : ℕ)
      → r.user_id ≢ v
      → NoBar r.user_id
      → Untouched v s (update_artifact s r now).0
  unfolding update_artifact
  update_artifact-Untouched r now other plain =
      let kept = same_store-Untouched v s in
      if-Untouched v s (is_empty r.user_id) _ _ kept (
        if-Untouched v s (is_empty r.artifact_id) _ _ kept
          (elim (Option-cases (get_artifact s r.user_id r.artifact_id)) [
            | inl e ↦ rw e kept
            | inr (a, e) ↦ rw e (
                after_header-Untouched r now (check_header r.header r.expected_header_version a)
                  other plain)
          ]))
