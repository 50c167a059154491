-- ===== src/Http/Router.antt =====
-- internal/server/router.go: the routes, and the requests that they serve. The matching of a path, and
-- the routes to the two real-time channels, are gin's; `Route` names what a path matches.
pub mod Kept
pub mod Isolation
use happy_server_lite.Base.{
  ℕ, GoString, codes, Bool, true, false, Option, none, some, List, [], ◌∷◌,
}
use happy_server_lite.Auth.{TokenConfig, Jwt, Crypto}
use happy_server_lite.Middleware.RateLimit.{RateLimiter, new_rate_limiter}
use happy_server_lite.Middleware.Authentication.{require_auth}
use happy_server_lite.Json.{Json}
use happy_server_lite.Store.State.{Store}
use happy_server_lite.Http.Answers.{Answer, answer, ok_status, no_user}
use happy_server_lite.Http.Accounts as Accounts
use happy_server_lite.Http.Accounts.{UpdateSettingsBody}
use happy_server_lite.Http.Sessions as Sessions
use happy_server_lite.Http.Sessions.{CreateSessionBody}
use happy_server_lite.Http.Machines as Machines
use happy_server_lite.Http.Machines.{UpsertMachineBody}
use happy_server_lite.Http.Artifacts as Artifacts
use happy_server_lite.Http.Artifacts.{CreateArtifactBody, UpdateArtifactBody}
use happy_server_lite.Http.Logins.{
  Api, AuthBody, AuthRequestBody, AuthResponseBody, auth, request, response, request_status,
}
use happy_server_lite.Http.Fixed.{
  feed, friends, add_friend, remove_friend, push_tokens, register_push_token, search_users,
  get_user, check_version,
}

-- What the handlers use of a request.
pub record Request : Type 0 where
  pub auth_header : GoString
  pub id : GoString
  pub query : GoString → GoString
  pub body : GoString
  pub client_ip : GoString

-- `ShouldBindJSON` into each body, and the single fields that are read whatever its result is
pub record HttpDecoders : Type 0 where
  pub auth_body : GoString → Option AuthBody
  pub auth_request_body : GoString → Option AuthRequestBody
  pub auth_response_body : GoString → Option AuthResponseBody
  pub update_settings_body : GoString → Option UpdateSettingsBody
  pub create_session_body : GoString → Option CreateSessionBody
  pub upsert_machine_body : GoString → Option UpsertMachineBody
  pub create_artifact_body : GoString → Option CreateArtifactBody
  pub update_artifact_body : GoString → Option UpdateArtifactBody
  pub uid_field : GoString → GoString
  pub token_field : GoString → GoString

-- What a handler draws: the time in milliseconds and in nanoseconds, a new identifier and the text of
-- random bytes.
pub record Draws : Type 0 where
  pub now : ℕ
  pub instant : ℕ
  pub new_id : GoString
  pub random : Option GoString

-- the routes that anyone may use
pub data OpenRoute : Type 0 where
  health login login_request login_status version : OpenRoute

-- the group behind the authentication
pub data ProtectedRoute : Type 0 where
  login_response profile get_settings update_settings : ProtectedRoute
  list_sessions create_session delete_session list_messages : ProtectedRoute
  list_machines upsert_machine : ProtectedRoute
  list_artifacts create_artifact get_artifact update_artifact delete_artifact : ProtectedRoute
  get_feed list_friends add_a_friend remove_a_friend : ProtectedRoute
  search_user user_profile list_push_tokens register_a_push_token : ProtectedRoute

pub data Route : Type 0 where
  free : OpenRoute → Route
  protected : ProtectedRoute → Route

-- `middleware.NewRateLimiter(10, time.Minute)`
abbrev pub new_api : Store → Api
new_api store = record { store = store; limiter = some (new_rate_limiter 10 60000000000) }

module _ (jwt : Jwt) (crypto : Crypto) (cfg : TokenConfig) (decode : HttpDecoders) where
  unfoldable pub serve_open : Api → OpenRoute → Request → Draws → Api × Answer
  serve_open api OpenRoute.health r d = (api, answer ok_status ((codes "ok", Json.bool true) ∷ []))
  serve_open api OpenRoute.login r d =
      auth jwt crypto cfg api (decode.auth_body r.body) d.new_id d.now d.instant d.random
  serve_open api OpenRoute.login_request r d =
      request api (decode.auth_request_body r.body) r.client_ip d.new_id d.now d.instant
  serve_open api OpenRoute.login_status r d =
      (api, request_status api.store (r.query (codes "publicKey")))
  serve_open api OpenRoute.version r d = (api, check_version)

  unfoldable pub serve_protected :
      Store → Option GoString → ProtectedRoute → Request → Draws → Store × Answer
  serve_protected s user ProtectedRoute.login_response r d =
      response jwt cfg s user (decode.auth_response_body r.body) d.now d.instant d.random
  serve_protected s user ProtectedRoute.profile r d = Accounts.profile s user d.now
  serve_protected s user ProtectedRoute.get_settings r d = Accounts.settings s user
  serve_protected s user ProtectedRoute.update_settings r d =
      Accounts.update_settings s user (decode.update_settings_body r.body) d.now
  serve_protected s user ProtectedRoute.list_sessions r d = Sessions.list s user
  serve_protected s user ProtectedRoute.create_session r d =
      Sessions.get_or_create s user (decode.create_session_body r.body) d.new_id d.now
  serve_protected s user ProtectedRoute.delete_session r d = Sessions.delete s user r.id d.now
  serve_protected s user ProtectedRoute.list_messages r d =
      Sessions.messages s user r.id (r.query (codes "after")) (r.query (codes "limit"))
  serve_protected s user ProtectedRoute.list_machines r d = Machines.list s user
  serve_protected s user ProtectedRoute.upsert_machine r d =
      Machines.upsert s user (decode.upsert_machine_body r.body) d.now
  serve_protected s user ProtectedRoute.list_artifacts r d = Artifacts.list s user
  serve_protected s user ProtectedRoute.create_artifact r d =
      Artifacts.create s user (decode.create_artifact_body r.body) d.now
  serve_protected s user ProtectedRoute.get_artifact r d = Artifacts.get s user r.id
  serve_protected s user ProtectedRoute.update_artifact r d =
      Artifacts.update s user r.id (decode.update_artifact_body r.body) d.now
  serve_protected s user ProtectedRoute.delete_artifact r d = Artifacts.delete s user r.id
  serve_protected s user ProtectedRoute.get_feed r d = (s, feed)
  serve_protected s user ProtectedRoute.list_friends r d = (s, friends)
  serve_protected s user ProtectedRoute.add_a_friend r d = (s, add_friend (decode.uid_field r.body))
  serve_protected s user ProtectedRoute.remove_a_friend r d =
      (s, remove_friend (decode.uid_field r.body))
  serve_protected s user ProtectedRoute.search_user r d = (s, search_users)
  serve_protected s user ProtectedRoute.user_profile r d = (s, get_user)
  serve_protected s user ProtectedRoute.list_push_tokens r d = (s, push_tokens)
  serve_protected s user ProtectedRoute.register_a_push_token r d =
      (s, register_push_token (decode.token_field r.body))

  -- `protected.Use(middleware.RequireAuth(...))`
  abbrev pub guarded : Api → Option GoString → ProtectedRoute → Request → Draws → Api × Answer
  guarded api none p r d = (api, no_user)
  guarded api (some user) p r d =
      let (s', a) = serve_protected api.store (some user) p r d in (record api { store = s' }, a)

  unfoldable pub serve : Api → Route → Request → Draws → Api × Answer
  serve api (Route.free o) r d = serve_open api o r d
  serve api (Route.protected p) r d = guarded api (require_auth jwt cfg r.auth_header) p r d
