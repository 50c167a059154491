-- ===== src/Tests/Requests.antt =====
-- The theorems on HTTP requests, tokens and the plain WebSocket channel.
use happy_server_lite.Base.{
  GoString, codes, List, [], ◌∷◌, ◌++◌, Option, none, some, Bool, true, false, ◌||◌, ◌≡◌, ◌≢◌, inl,
  inr, refl, ◌==◌, ==_iff, lookup, arith, if◌then◌else◌, ℕ, sym, eqb,
}
use happy_server_lite.Tests.Data.{
  alice, bob, sid_1, sid_2, session_1, store_1, store_1-Indexed, lookup-single,
}
use happy_server_lite.Base.{subst, Bool-cases}
use happy_server_lite.Base.Pointers.{Pointer, contains}
use happy_server_lite.Model.{AuthRequest}
use happy_server_lite.Auth.{
  TokenConfig, default_token_config, Claims, Jwt, Crypto, claims_of, create_token, verify_token,
}
use happy_server_lite.Middleware.RateLimit.{RateLimiter, allow, count_request}
use happy_server_lite.Middleware.Authentication.{space, require_auth, split_two, is_bearer}
use happy_server_lite.Middleware.Authentication.Bearer.{IsAuthenticated}
use happy_server_lite.Store.Isolation.{Untouched}
use happy_server_lite.Store.Accounts.{get_auth_request}
use happy_server_lite.Hub.{Hub}
use happy_server_lite.Hub.Delivery.{members}
use happy_server_lite.Http.Answers.{succeeded}
use happy_server_lite.Http.Sessions.{CreateSessionBody}
use happy_server_lite.Http.Logins.{Api, AuthRequestBody, AuthResponseBody, asked, request, response}
use happy_server_lite.Store.Accounts.Requests as Requests
use happy_server_lite.Http.Logins.Pairing.{granted}
use happy_server_lite.Http.Router.{
  Request, HttpDecoders, Draws, ProtectedRoute, Route, new_api, serve,
}
use happy_server_lite.Http.Router.Kept.{Separate}
use happy_server_lite.Http.Channel.{ClientMessage, Channel, serve_channel}
use happy_server_lite.Http.Channel.Conversation.{Ordered, written_to}
use happy_server_lite.Http.Router.Isolation.{serve-Untouched}
use happy_server_lite.Middleware.Authentication.Bearer.{
  require_auth-IsAuthenticated, require_auth-create_token,
}
use happy_server_lite.Http.Logins.Pairing.{response-request, request-refused}
use happy_server_lite.Http.Channel.Conversation.{serve_channel-isolated}

abbrev config_1 : TokenConfig
config_1 = default_token_config (codes "secret")

abbrev jwt_0 : Jwt
jwt_0 = record { signed_string = λ claims key. none; parse_with_claims = λ token key_for. none }

abbrev claims_1 : GoString → Claims
claims_1 jti = claims_of jwt_0 config_1 alice 20 jti

-- a library whose token is the identifier of its claims, which are otherwise those of one user
abbrev jwt_1 : Jwt
jwt_1 = record {
  signed_string = λ claims key. some claims.id;
  parse_with_claims = λ token key_for. some (claims_1 token, true);
}

abbrev crypto_1 : Crypto
crypto_1 = record { decode_string = λ s. none; verify = λ k c s. false }

abbrev header_1 : GoString
header_1 = codes "bearer ab"

authenticated_1 : require_auth jwt_1 config_1 header_1 ≡ some alice
unfolding require_auth split_two is_bearer verify_token ◌==◌
authenticated_1 = refl

some-alice : (u : GoString) → require_auth jwt_1 config_1 header_1 ≡ some u → u ≡ alice
some-alice u h = ground (arith, h, authenticated_1)

not_bob : require_auth jwt_1 config_1 header_1 ≢ some bob
not_bob h = absurd (ground (arith, h, authenticated_1))

store_1-Separate : Separate store_1 alice bob sid_2
unfolding lookup ◌==◌
store_1-Separate = record {
  indexed = store_1-Indexed;
  fresh = refl;
  plain = omega arith;
  plain_other = omega arith;
  plain_users =
      λ sid sess h. let (k, v) = lookup-single sid_1 sid session_1 sess h in rw (← v) (omega arith);
}

abbrev create_1 : CreateSessionBody
create_1 = record {
  tag = codes "u";
  metadata = codes "meta";
  agent_state = none;
  data_encryption_key = none;
}

abbrev http_decoders_1 : HttpDecoders
http_decoders_1 = record {
  auth_body = λ s. none;
  auth_request_body = λ s. none;
  auth_response_body = λ s. none;
  update_settings_body = λ s. none;
  create_session_body = λ s. some create_1;
  upsert_machine_body = λ s. none;
  create_artifact_body = λ s. none;
  update_artifact_body = λ s. none;
  uid_field = λ s. [];
  token_field = λ s. [];
}

abbrev http_1 : Request
http_1 = record {
  auth_header = header_1;
  id = [];
  query = λ k. [];
  body = codes "{}";
  client_ip = codes "::1";
}

abbrev draws_1 : Draws
draws_1 = record { now = 20; instant = 20; new_id = sid_2; random = some (codes "ab") }

-- a client that waits for its login
abbrev waiting : AuthRequest
waiting = record {
  id = codes "r1";
  public_key = codes "k";
  supports_v2 = false;
  response = [];
  response_account_id = [];
  token = [];
  created_at = 15;
  updated_at = 15;
}

-- whose address has used up the limit
abbrev limiter_1 : RateLimiter
limiter_1 = record {
  requests = (codes "::1", record { count = 1; reset_at = 100 }) ∷ [];
  limit = 1;
  window = 60;
}

abbrev api_1 : Api
api_1 = record {
  store = record store_1 { auth_requests_by_key = (codes "k", waiting) ∷ [] };
  limiter = some limiter_1;
}

abbrev grant_1 : AuthResponseBody
grant_1 = record { public_key = codes "k"; response = codes "yes" }

abbrev poll_1 : AuthRequestBody
poll_1 = record { public_key = codes "k"; supports_v2 = false }

abbrev poll_2 : AuthRequestBody
poll_2 = record { public_key = codes "k2"; supports_v2 = false }

created_1 : create_token jwt_1 alice config_1 20 (some (codes "ab")) ≡ inr (codes "ab")
unfolding create_token
created_1 = refl

-- two connections of one user and one of another
abbrev owner : Pointer → GoString
owner p = if eqb p 3 then bob else alice

abbrev every : Pointer → Bool
every p = true

abbrev hub_0 : Hub
hub_0 = record { connections = (bob, 3 ∷ []) ∷ [] }

hub_0-Ordered : Ordered owner every hub_0
unfolding lookup ◌==◌
hub_0-Ordered = record {
  own = λ u c i. elim (Bool-cases (bob == u)) [
    | inl e ↦ elim (rw e at i) [ inl q ↦ rw q ((==_iff bob u).0 e) | inr j ↦ elim j [ ] ]
    | inr e ↦ elim (rw e at i) [ ]
  ];
  no_empty = record {
    at = λ u set h. let (k, v) = lookup-single bob u (3 ∷ []) set h in rw (← v) refl;
  };
}

abbrev channel_1 : Channel
channel_1 = record { store = store_1; hub = hub_0; written = [] }

abbrev said : List (Option ClientMessage × GoString × ℕ)
said =
    (
      some (record { type_name = codes "message"; sid = sid_1; message = codes "hi" }),
      codes "x9",
      20,
    )
    ∷ (none, codes "x10", 21)
    ∷ []

alice-not-bob : owner 1 ≢ bob
alice-not-bob e = absurd (ground (arith, e))

serve-Untouched_example :
    Untouched bob
      (new_api store_1).store
      (serve jwt_1 crypto_1 config_1 http_decoders_1
        (new_api store_1)
        (Route.protected ProtectedRoute.create_session)
        http_1
        draws_1).0.store
serve-Untouched_example =
    serve-Untouched jwt_1 crypto_1 config_1 http_decoders_1 (new_api store_1)
      (Route.protected ProtectedRoute.create_session) http_1 draws_1 bob not_bob
      (λ u h. subst (λ w. Separate store_1 w bob sid_2) (sym (some-alice u h)) store_1-Separate)

require_auth-IsAuthenticated_example : IsAuthenticated jwt_1 config_1 header_1 alice
require_auth-IsAuthenticated_example =
    require_auth-IsAuthenticated jwt_1 config_1 header_1 alice authenticated_1

require_auth-create_token_example :
    require_auth jwt_1 config_1 (codes "Bearer" ++ space ∷ (codes "ab")) ≡ some alice
require_auth-create_token_example =
    require_auth-create_token jwt_1 config_1 alice (codes "ab") 20 (some (codes "ab"))
      (λ jti t key_for h k. ground (arith, h)) created_1

-- a poll of the key, and the request and the answer of another key
abbrev calls_2 : List Requests.Call
calls_2 =
    Requests.upsert (codes "k") true (codes "r3") 21
    ∷ Requests.upsert (codes "k2") false (codes "r4") 22
    ∷ Requests.authorize (codes "k2") (codes "no") bob (codes "cd") 23
    ∷ []

-- the server after these, with another limiter
abbrev api_2 : Api
api_2 =
    let (s', a) =
      response jwt_1 config_1 api_1.store (some alice) (some grant_1) 20 20 (some (codes "ab")) in
    record { store = Requests.run s' calls_2; limiter = none }

other_key : codes "k2" ≢ codes "k"
unfolding ◌==◌
other_key e = ground (arith, (==_iff (codes "k2") (codes "k")).1 e)

response-request_example :
    let (s', a) =
      response jwt_1 config_1 api_1.store (some alice) (some grant_1) 20 20 (some (codes "ab")) in
    let (api', b) = request api_2 (some poll_1) (codes "::1") (codes "r2") 24 24 in
    (a ≡ succeeded)
    × (b
        ≡ granted
            (codes "ab")
            grant_1.response
            (Requests.raised grant_1.public_key calls_2 waiting.supports_v2 || poll_1.supports_v2))
    × (api'.limiter ≡ api_2.limiter)
unfolding get_auth_request lookup ◌==◌
response-request_example =
    response-request jwt_1 config_1 api_1.store waiting alice (codes "ab") grant_1 calls_2 api_2
      poll_1 (codes "::1") (codes "r2") 20 20 24 24 (some (codes "ab")) refl refl refl refl
      created_1 refl (other_key, tt) refl refl

request-refused_example :
    (get_auth_request api_1.store poll_2.public_key ≡ none)
    × ((asked api_1.limiter (codes "::1") 20).1 ≡ false)
    × ((request api_1 (some poll_2) (codes "::1") (codes "r2") 20 20).0.store ≡ api_1.store)
unfolding get_auth_request lookup ◌==◌ request allow count_request
request-refused_example = request-refused api_1 poll_2 (codes "::1") (codes "r2") 20 20 refl

serve_channel-isolated_example :
    let ch' = serve_channel owner every channel_1 1 said in
    Untouched bob channel_1.store ch'.store
    × (members ch'.hub bob ≡ members channel_1.hub bob)
    × (written_to owner every bob ch'.written ≡ written_to owner every bob channel_1.written)
    × (contains (members ch'.hub (owner 1)) 1 ≡ false)
serve_channel-isolated_example =
    serve_channel-isolated owner every bob channel_1 1 said alice-not-bob hub_0-Ordered
