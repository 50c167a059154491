-- ===== src/Http/Router/Isolation.antt =====
-- A request of one user, and what another user can read.
use happy_server_lite.Base.{
  ℕ, GoString, is_empty, ◌≡◌, ◌≢◌, refl, ap, Bool, true, false, not, Option, none, some, ◌⊎◌, inl,
  inr, if◌then◌else◌,
}
use happy_server_lite.Auth.{
  TokenConfig, Jwt, Crypto, TokenError, create_token, SignatureError, verify_signature_detailed,
}
use happy_server_lite.Middleware.Authentication.{require_auth, user_id_from_context}
use happy_server_lite.Model.{AuthRequest}
use happy_server_lite.Store.State.{Store}
use happy_server_lite.Store.Accounts.{get_auth_request}
use happy_server_lite.Store.Isolation.{Untouched, same_store-Untouched}
use happy_server_lite.Store.Isolation.Accounts.{
  get_or_create_account-Untouched, upsert_auth_request-Untouched, authorize_auth_request-Untouched,
}
use happy_server_lite.Http.Answers.{Answer, with_user}
use happy_server_lite.Http.Accounts as Accounts
use happy_server_lite.Http.Sessions as Sessions
use happy_server_lite.Http.Sessions.{session_request}
use happy_server_lite.Http.Machines as Machines
use happy_server_lite.Http.Machines.{machine_request}
use happy_server_lite.Http.Artifacts as Artifacts
use happy_server_lite.Http.Artifacts.{artifact_request, artifact_update}
use happy_server_lite.Http.Logins.{
  Api, AuthBody, AuthRequestBody, AuthResponseBody, auth, logged_in, request, request_for, asked,
  response, responded, authorized_with,
}
use happy_server_lite.Http.Router.{
  Request, HttpDecoders, Draws, OpenRoute, ProtectedRoute, Route, serve_open, serve_protected,
  guarded, serve,
}
use happy_server_lite.Http.Router.Kept.{
  Keeps, ApiKeeps, Separate, same-Keeps, if-Keeps, with_user-Keeps, update_settings-Keeps,
  delete_session-Keeps, upsert_machine-Keeps, create_artifact-Keeps, update_artifact-Keeps,
  delete_artifact-Keeps, create_session-Keeps,
}

module _ (jwt : Jwt) (crypto : Crypto) (cfg : TokenConfig) (decode : HttpDecoders) where
  authorized_with-Keeps :
      (v : GoString) (s : Store) (body : AuthResponseBody) (u : GoString) (now : ℕ)
      (token : TokenError ⊎ GoString)
      → Keeps v s (authorized_with jwt cfg s body u now token)
  authorized_with-Keeps v s body u now (inl e) = same-Keeps v s _
  authorized_with-Keeps v s body u now (inr token) = record {
    kept = authorize_auth_request-Untouched v s body.public_key body.response u token now;
  }

  responded-Keeps :
      (v : GoString) (s : Store) (body : AuthResponseBody) (now instant : ℕ)
      (random user : Option GoString)
      → Keeps v s (responded jwt cfg s body now instant random user)
  responded-Keeps v s body now instant random none = same-Keeps v s _
  responded-Keeps v s body now instant random (some u) =
      authorized_with-Keeps v s body u now (create_token jwt u cfg instant random)

  response-Keeps :
      (v : GoString) (s : Store) (user : Option GoString) (decoded : Option AuthResponseBody)
      (now instant : ℕ) (random : Option GoString)
      → Keeps v s (response jwt cfg s user decoded now instant random)
  unfolding response
  response-Keeps v s user none now instant random = same-Keeps v s _
  response-Keeps v s user (some body) now instant random =
      if-Keeps v s (is_empty body.public_key) _ _ (same-Keeps v s _) (
        if-Keeps v s (is_empty body.response) _ _ (same-Keeps v s _)
          (responded-Keeps v s body now instant random (user_id_from_context user)))

  -- A handler that gives back the store.
  reading-Keeps :
      (v : GoString) (s : Store) (user : Option GoString) (f : GoString → Answer)
      → Keeps v s (with_user s user (λ u. (s, f u)))
  reading-Keeps v s user f = with_user-Keeps v s user _ (λ u e. same-Keeps v s (f u))

  protected-Keeps :
      (u v : GoString) (s : Store) (p : ProtectedRoute) (r : Request) (d : Draws)
      → u ≢ v
      → Separate s u v d.new_id
      → Keeps v s (serve_protected jwt crypto cfg decode s (some u) p r d)
  unfolding serve_protected Accounts.profile Accounts.settings Sessions.list Sessions.messages
      Machines.list Artifacts.list Artifacts.get
  protected-Keeps u v s ProtectedRoute.login_response r d other sep =
      response-Keeps v s (some u) _ d.now d.instant d.random
  protected-Keeps u v s ProtectedRoute.profile r d other sep = reading-Keeps v s (some u) _
  protected-Keeps u v s ProtectedRoute.get_settings r d other sep = reading-Keeps v s (some u) _
  protected-Keeps u v s ProtectedRoute.update_settings r d other sep =
      update_settings-Keeps u v other s _ d.now
  protected-Keeps u v s ProtectedRoute.list_sessions r d other sep = reading-Keeps v s (some u) _
  protected-Keeps u v s ProtectedRoute.create_session r d other sep =
      create_session-Keeps u v other s _ d.new_id d.now sep
  protected-Keeps u v s ProtectedRoute.delete_session r d other sep =
      delete_session-Keeps u v other s r.id d.now
  protected-Keeps u v s ProtectedRoute.list_messages r d other sep =
      with_user-Keeps v s (some u) _
        (λ u' e. if-Keeps v s (is_empty r.id) _ _ (same-Keeps v s _) (same-Keeps v s _))
  protected-Keeps u v s ProtectedRoute.list_machines r d other sep = reading-Keeps v s (some u) _
  protected-Keeps u v s ProtectedRoute.upsert_machine r d other sep =
      upsert_machine-Keeps u v other s _ d.now
  protected-Keeps u v s ProtectedRoute.list_artifacts r d other sep = reading-Keeps v s (some u) _
  protected-Keeps u v s ProtectedRoute.create_artifact r d other sep =
      create_artifact-Keeps u v other s sep.plain sep.plain_other _ d.now
  protected-Keeps u v s ProtectedRoute.get_artifact r d other sep =
      with_user-Keeps v s (some u) _
        (λ u' e. if-Keeps v s (is_empty r.id) _ _ (same-Keeps v s _) (same-Keeps v s _))
  protected-Keeps u v s ProtectedRoute.update_artifact r d other sep =
      update_artifact-Keeps u v other s sep.plain sep.plain_other r.id _ d.now
  protected-Keeps u v s ProtectedRoute.delete_artifact r d other sep =
      delete_artifact-Keeps u v other s sep.plain sep.plain_other r.id
  protected-Keeps u v s ProtectedRoute.get_feed r d other sep = same-Keeps v s _
  protected-Keeps u v s ProtectedRoute.list_friends r d other sep = same-Keeps v s _
  protected-Keeps u v s ProtectedRoute.add_a_friend r d other sep = same-Keeps v s _
  protected-Keeps u v s ProtectedRoute.remove_a_friend r d other sep = same-Keeps v s _
  protected-Keeps u v s ProtectedRoute.search_user r d other sep = same-Keeps v s _
  protected-Keeps u v s ProtectedRoute.user_profile r d other sep = same-Keeps v s _
  protected-Keeps u v s ProtectedRoute.list_push_tokens r d other sep = same-Keeps v s _
  protected-Keeps u v s ProtectedRoute.register_a_push_token r d other sep = same-Keeps v s _

  module _ (v : GoString) where
    logged_in-Keeps :
        (api : Api) (body : AuthBody) (new_id : GoString) (now instant : ℕ)
        (random : Option GoString) (e : Option SignatureError)
        → ApiKeeps v api (logged_in jwt crypto cfg api body new_id now instant random e)
    logged_in-Keeps api body new_id now instant random (some e) = record {
      kept = same_store-Untouched v api.store;
    }
    logged_in-Keeps api body new_id now instant random none = record {
      kept = get_or_create_account-Untouched v api.store body.public_key new_id now;
    }

    auth-Keeps :
        (api : Api) (decoded : Option AuthBody) (new_id : GoString) (now instant : ℕ)
        (random : Option GoString)
        → ApiKeeps v api (auth jwt crypto cfg api decoded new_id now instant random)
    unfolding auth
    auth-Keeps api none new_id now instant random = record {
      kept = same_store-Untouched v api.store;
    }
    auth-Keeps api (some body) new_id now instant random =
        logged_in-Keeps api body new_id now instant random
          (verify_signature_detailed crypto body.public_key body.challenge body.signature)

    if-ApiKeeps :
        (api : Api) (test : Bool) (x y : Api × Answer)
        → ApiKeeps v api x
        → ApiKeeps v api y
        → ApiKeeps v api (if test then x else y)
    if-ApiKeeps api true x y h k = h
    if-ApiKeeps api false x y h k = k

    request_for-Keeps :
        (api : Api) (body : AuthRequestBody) (ip new_id : GoString) (now instant : ℕ)
        (known : Option AuthRequest)
        → ApiKeeps v api (request_for api body ip new_id now instant known)
    request_for-Keeps api body ip new_id now instant (some req) = record {
      kept = upsert_auth_request-Untouched v api.store body.public_key body.supports_v2 new_id now;
    }
    request_for-Keeps api body ip new_id now instant none =
        let (limiter, allowed) = asked api.limiter ip instant in
        if-ApiKeeps api (not allowed) _ _ (record { kept = same_store-Untouched v api.store })
          (record {
            kept =
                upsert_auth_request-Untouched v api.store body.public_key body.supports_v2 new_id
                  now;
          })

    request-Keeps :
        (api : Api) (decoded : Option AuthRequestBody) (ip new_id : GoString) (now instant : ℕ)
        → ApiKeeps v api (request api decoded ip new_id now instant)
    unfolding request
    request-Keeps api none ip new_id now instant = record {
      kept = same_store-Untouched v api.store;
    }
    request-Keeps api (some body) ip new_id now instant =
        if-ApiKeeps api (is_empty body.public_key) _ _
          (record { kept = same_store-Untouched v api.store })
          (request_for-Keeps api body ip new_id now instant
            (get_auth_request api.store body.public_key))

    open-Keeps :
        (api : Api) (o : OpenRoute) (r : Request) (d : Draws)
        → ApiKeeps v api (serve_open jwt crypto cfg decode api o r d)
    unfolding serve_open
    open-Keeps api OpenRoute.health r d = record { kept = same_store-Untouched v api.store }
    open-Keeps api OpenRoute.login r d = auth-Keeps api _ d.new_id d.now d.instant d.random
    open-Keeps api OpenRoute.login_request r d =
        request-Keeps api _ r.client_ip d.new_id d.now d.instant
    open-Keeps api OpenRoute.login_status r d = record { kept = same_store-Untouched v api.store }
    open-Keeps api OpenRoute.version r d = record { kept = same_store-Untouched v api.store }

  guarded-Keeps :
      (v : GoString) (api : Api) (user : Option GoString) (p : ProtectedRoute) (r : Request)
      (d : Draws)
      → user ≢ some v
      → ((u : GoString) → user ≡ some u → Separate api.store u v d.new_id)
      → ApiKeeps v api (guarded jwt crypto cfg decode api user p r d)
  guarded-Keeps v api none p r d other sep = record { kept = same_store-Untouched v api.store }
  guarded-Keeps v api (some u) p r d other sep =
      let kept = protected-Keeps u v api.store p r d (λ e. other (ap some e)) (sep u refl) in
      record { kept = kept.kept }

-- Whatever request comes, on any route, all that a user can read of the store under another identifier
-- than the one that the request is authenticated with stays as it was; the index of sessions must be
-- right, the identifier drawn must be fresh, and no user's identifier may hold a bar.
pub serve-Untouched :
    (jwt : Jwt) (crypto : Crypto) (cfg : TokenConfig) (decode : HttpDecoders) (api : Api)
    (route : Route) (r : Request) (d : Draws) (v : GoString)
    → require_auth jwt cfg r.auth_header ≢ some v
    → ((u : GoString)
        → require_auth jwt cfg r.auth_header ≡ some u
        → Separate api.store u v d.new_id)
    → Untouched v api.store (serve jwt crypto cfg decode api route r d).0.store
unfolding serve
serve-Untouched jwt crypto cfg decode api (Route.free o) r d v other sep =
    (open-Keeps jwt crypto cfg decode v api o r d).kept
serve-Untouched jwt crypto cfg decode api (Route.protected p) r d v other sep =
    (guarded-Keeps jwt crypto cfg decode v api (require_auth jwt cfg r.auth_header) p r d other
      sep).kept
