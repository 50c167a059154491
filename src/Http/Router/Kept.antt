-- ===== src/Http/Router/Kept.antt =====
-- What a handler of one user's request leaves as it is for another user.
use happy_server_lite.Base.{
  ℕ, GoString, is_empty, ◌≡◌, ◌≢◌, refl, ◌∙◌, subst, Bool, true, false, not, Option, none, some,
  lookup, if◌then◌else◌, arith,
}
use happy_server_lite.Middleware.Authentication.{user_id_from_context}
use happy_server_lite.Model.{Session}
use happy_server_lite.Store.State.{Store}
use happy_server_lite.Store.State.Keys.{NoBar}
use happy_server_lite.Store.Sessions.{delete_session}
use happy_server_lite.Store.Artifacts.{delete_artifact}
use happy_server_lite.Store.Sessions.Lifecycle.{Indexed}
use happy_server_lite.Store.Isolation.{Untouched, same_store-Untouched}
use happy_server_lite.Store.Isolation.Sessions.{
  get_or_create_session-Untouched, delete_session-Untouched,
}
use happy_server_lite.Store.Isolation.Machines.{upsert_machine-Untouched}
use happy_server_lite.Store.Isolation.Artifacts.{
  create_artifact-Untouched, update_artifact-Untouched, delete_artifact-Untouched,
}
use happy_server_lite.Store.Isolation.Accounts.{update_account_settings-Untouched}
use happy_server_lite.Http.Answers.{Answer, no_user, for_user, with_user, with_body}
use happy_server_lite.Http.Accounts as Accounts
use happy_server_lite.Http.Sessions as Sessions
use happy_server_lite.Http.Sessions.{session_request}
use happy_server_lite.Http.Machines as Machines
use happy_server_lite.Http.Machines.{machine_request}
use happy_server_lite.Http.Artifacts as Artifacts
use happy_server_lite.Http.Artifacts.{artifact_request, artifact_update}
use happy_server_lite.Http.Logins.{Api}

some-injective : (a b : GoString) → some a ≡ some b → a ≡ b
some-injective a b e = cc

renamed : (u u' v : GoString) → u ≢ v → some u ≡ some u' → u' ≢ v
renamed u u' v other e h = other (some-injective u u' e ∙ h)

-- The store after a handler, to the user `v`.
pub record Keeps (v : GoString) (s : Store) (out : Store × Answer) : Type 0 where
  pub kept : Untouched v s out.0

pub record ApiKeeps (v : GoString) (api : Api) (out : Api × Answer) : Type 0 where
  pub kept : Untouched v api.store out.0.store

module _ (v : GoString) (s : Store) where
  pub same-Keeps : (a : Answer) → Keeps v s (s, a)
  same-Keeps a = record { kept = same_store-Untouched v s }

  pub if-Keeps :
      (test : Bool) (x y : Store × Answer)
      → Keeps v s x
      → Keeps v s y
      → Keeps v s (if test then x else y)
  if-Keeps true x y h k = h
  if-Keeps false x y h k = k

  with_body-Keeps :
      {B : Type 0} (decoded : Option B) (f : B → Store × Answer)
      → ((b : B) → Keeps v s (f b))
      → Keeps v s (with_body s decoded f)
  with_body-Keeps none f h = same-Keeps _
  with_body-Keeps (some b) f h = h b

  for_user-Keeps :
      (user : Option GoString) (f : GoString → Store × Answer)
      → ((u : GoString) → user ≡ some u → Keeps v s (f u))
      → Keeps v s (for_user s user f)
  for_user-Keeps none f h = same-Keeps no_user
  for_user-Keeps (some u) f h = h u refl

  context_user :
      (user : Option GoString) (u : GoString) → user_id_from_context user ≡ some u → user ≡ some u
  context_user none u h = absurd (ground (arith, h))
  context_user (some w) u h = ground (arith, h)

  -- A handler that starts with the user of the context.
  pub with_user-Keeps :
      (user : Option GoString) (f : GoString → Store × Answer)
      → ((u : GoString) → user ≡ some u → Keeps v s (f u))
      → Keeps v s (with_user s user f)
  with_user-Keeps user f h =
      for_user-Keeps (user_id_from_context user) f (λ u e. h u (context_user user u e))

-- What a request of `u` with a new identifier needs of the store: the index of sessions is right, the
-- identifier is fresh, and no user's identifier holds a bar.
pub record Separate (s : Store) (u v new_id : GoString) : Type 0 where
  pub indexed : Indexed s
  pub fresh : lookup new_id s.sessions_by_id ≡ none
  pub plain : NoBar u
  pub plain_other : NoBar v
  pub plain_users :
      (sid : GoString) (sess : Session)
      → lookup sid s.sessions_by_id ≡ some sess
      → NoBar sess.user_id

module _ (u v : GoString) (other : u ≢ v) (s : Store) where
  pub update_settings-Keeps :
      (decoded : Option Accounts.UpdateSettingsBody) (now : ℕ)
      → Keeps v s (Accounts.update_settings s (some u) decoded now)
  unfolding Accounts.update_settings
  update_settings-Keeps decoded now = with_user-Keeps v s (some u) _ (λ u' e.
      with_body-Keeps v s decoded _ (λ b.
        if-Keeps v s (is_empty b.settings) _ _ (same-Keeps v s _) (record {
          kept =
              update_account_settings-Untouched u' v s b.expected_version b.settings now
                (renamed u u' v other e);
        })))

  pub delete_session-Keeps :
      (sid : GoString) (now : ℕ) → Keeps v s (Sessions.delete s (some u) sid now)
  unfolding Sessions.delete
  delete_session-Keeps sid now = with_user-Keeps v s (some u) _ (λ u' e.
      let kept = delete_session-Untouched u' v (renamed u u' v other e) s sid now in
      let (s', deleted) = delete_session s u' sid now in
      if-Keeps v s (is_empty sid) _ _ (same-Keeps v s _)
        (if-Keeps v s (not deleted) _ _ (record { kept = kept }) (record { kept = kept })))

  pub upsert_machine-Keeps :
      (decoded : Option Machines.UpsertMachineBody) (now : ℕ)
      → Keeps v s (Machines.upsert s (some u) decoded now)
  unfolding Machines.upsert
  upsert_machine-Keeps decoded now = with_user-Keeps v s (some u) _ (λ u' e.
      with_body-Keeps v s decoded _ (λ b. record {
        kept =
            upsert_machine-Untouched u' v (renamed u u' v other e) s (machine_request u' b) now
              refl;
      }))

  module _ (plain : NoBar u) (plain_other : NoBar v) where
    pub create_artifact-Keeps :
        (decoded : Option Artifacts.CreateArtifactBody) (now : ℕ)
        → Keeps v s (Artifacts.create s (some u) decoded now)
    unfolding Artifacts.create
    create_artifact-Keeps decoded now = with_user-Keeps v s (some u) _ (λ u' e.
        with_body-Keeps v s decoded _ (λ b. record {
          kept =
              create_artifact-Untouched v s plain_other (artifact_request u' b) now
                (renamed u u' v other e) (subst NoBar (some-injective u u' e) plain);
        }))

    pub update_artifact-Keeps :
        (aid : GoString) (decoded : Option Artifacts.UpdateArtifactBody) (now : ℕ)
        → Keeps v s (Artifacts.update s (some u) aid decoded now)
    unfolding Artifacts.update
    update_artifact-Keeps aid decoded now = with_user-Keeps v s (some u) _ (λ u' e.
        if-Keeps v s (is_empty aid) _ _ (same-Keeps v s _) (
          with_body-Keeps v s decoded _ (λ b. record {
            kept =
                update_artifact-Untouched v s plain_other (artifact_update u' aid b) now
                  (renamed u u' v other e) (subst NoBar (some-injective u u' e) plain);
          })))

    pub delete_artifact-Keeps : (aid : GoString) → Keeps v s (Artifacts.delete s (some u) aid)
    unfolding Artifacts.delete
    delete_artifact-Keeps aid = with_user-Keeps v s (some u) _ (λ u' e.
        let kept =
          delete_artifact-Untouched u' v (renamed u u' v other e)
            (subst NoBar (some-injective u u' e) plain) plain_other s aid in
        let (s', deleted) = delete_artifact s u' aid in
        if-Keeps v s (is_empty aid) _ _ (same-Keeps v s _)
          (if-Keeps v s (not deleted) _ _ (record { kept = kept }) (record { kept = kept })))

  pub create_session-Keeps :
      (decoded : Option Sessions.CreateSessionBody) (new_id : GoString) (now : ℕ)
      → Separate s u v new_id
      → Keeps v s (Sessions.get_or_create s (some u) decoded new_id now)
  unfolding Sessions.get_or_create
  create_session-Keeps decoded new_id now sep = with_user-Keeps v s (some u) _ (λ u' e.
      with_body-Keeps v s decoded _ (λ b. record {
        kept =
            get_or_create_session-Untouched u' v (renamed u u' v other e) s (session_request u' b)
              new_id now refl (subst NoBar (some-injective u u' e) sep.plain) sep.indexed sep.fresh
              sep.plain_users;
      }))
