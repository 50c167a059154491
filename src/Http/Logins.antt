-- ===== src/Http/Logins.antt =====
-- internal/handler/auth.go: a login with a signature, and the pairing of a second client.
pub mod Pairing
use happy_server_lite.Base.{
  ℕ, GoString, codes, is_empty, Bool, true, false, not, Option, none, some, ◌⊎◌, inl, inr, List, [],
  ◌∷◌, if◌then◌else◌,
}
use happy_server_lite.Json.{Json}
use happy_server_lite.Model.{AuthRequest}
use happy_server_lite.Auth.{
  TokenConfig, Jwt, TokenError, create_token, Crypto, SignatureError, verify_signature_detailed,
}
use happy_server_lite.Middleware.RateLimit.{RateLimiter, allow}
use happy_server_lite.Middleware.Authentication.{user_id_from_context}
use happy_server_lite.Store.State.{Store}
use happy_server_lite.Store.Accounts.{
  get_or_create_account, get_auth_request, upsert_auth_request, authorize_auth_request,
}
use happy_server_lite.Http.Answers.{
  Answer, answer, failed, ok_status, bad_request, unauthorized, not_found, too_many_requests,
  internal_error, no_user, invalid_request, succeeded,
}

-- The store and the limiter of the login requests, which may be missing.
pub record Api : Type 0 where
  pub store : Store
  pub limiter : Option RateLimiter

pub record AuthBody : Type 0 where
  pub public_key : GoString
  pub challenge : GoString
  pub signature : GoString

pub record AuthRequestBody : Type 0 where
  pub public_key : GoString
  pub supports_v2 : Bool

pub record AuthResponseBody : Type 0 where
  pub public_key : GoString
  pub response : GoString

abbrev signature_text : SignatureError → GoString
signature_text SignatureError.invalid_public_key = codes "Invalid public key"
signature_text SignatureError.invalid_signature = codes "Invalid signature"

abbrev token_answer : TokenError ⊎ GoString → Answer
token_answer (inl e) = failed internal_error (codes "Token creation failed")
token_answer (inr token) =
    answer ok_status ((codes "success", Json.bool true) ∷ (codes "token", Json.string token) ∷ [])

module _ (jwt : Jwt) (crypto : Crypto) (cfg : TokenConfig) where
  abbrev pub logged_in :
      Api → AuthBody → GoString → ℕ → ℕ → Option GoString → Option SignatureError → Api × Answer
  logged_in api body new_id now instant random (some e) =
      (api, failed unauthorized (signature_text e))
  logged_in api body new_id now instant random none =
      let (s', account, created) = get_or_create_account api.store body.public_key new_id now in
      (record api { store = s' }, token_answer (create_token jwt account.id cfg instant random))

  -- `Auth`; `now` is the time in milliseconds and `instant` that in nanoseconds.
  unfoldable pub auth : Api → Option AuthBody → GoString → ℕ → ℕ → Option GoString → Api × Answer
  auth api none new_id now instant random = (api, invalid_request)
  auth api (some body) new_id now instant random =
      logged_in api body new_id now instant random
        (verify_signature_detailed crypto body.public_key body.challenge body.signature)

-- `h.AuthRequestLimiter != nil && !h.AuthRequestLimiter.Allow(c.ClientIP())`
abbrev pub asked : Option RateLimiter → GoString → ℕ → Option RateLimiter × Bool
asked none ip instant = (none, true)
asked (some rl) ip instant = let (rl', allowed) = allow rl ip instant in (some rl', allowed)

abbrev request_answer : AuthRequest → Answer
request_answer req =
    if not (is_empty req.token)
    then answer ok_status (
        (codes "state", Json.string (codes "authorized"))
        ∷ (codes "token", Json.string req.token)
        ∷ (codes "response", Json.string req.response)
        ∷ (codes "supportsV2", Json.bool req.supports_v2)
        ∷ [])
    else answer ok_status (
        (codes "state", Json.string (codes "requested"))
        ∷ (codes "supportsV2", Json.bool req.supports_v2)
        ∷ [])

abbrev pub requested : Api → AuthRequestBody → GoString → ℕ → Api × Answer
requested api body new_id now =
    let (s', req) = upsert_auth_request api.store body.public_key body.supports_v2 new_id now in
    (record api { store = s' }, request_answer req)

-- Only a key without a request asks the limiter.
abbrev pub request_for :
    Api → AuthRequestBody → GoString → GoString → ℕ → ℕ → Option AuthRequest → Api × Answer
request_for api body ip new_id now instant (some req) = requested api body new_id now
request_for api body ip new_id now instant none =
    let (limiter, allowed) = asked api.limiter ip instant in
    let api' : Api = record api { limiter = limiter } in
    let made = requested api' body new_id now in
    if not allowed then (api', failed too_many_requests (codes "Rate limit exceeded")) else made

unfoldable pub request : Api → Option AuthRequestBody → GoString → GoString → ℕ → ℕ → Api × Answer
request api none ip new_id now instant = (api, invalid_request)
request api (some body) ip new_id now instant =
    let made =
      request_for api body ip new_id now instant (get_auth_request api.store body.public_key) in
    if is_empty body.public_key
    then (api, failed bad_request (codes "Invalid public key"))
    else made

module _ (jwt : Jwt) (cfg : TokenConfig) where
  abbrev authorized_answer : Option AuthRequest → Answer
  authorized_answer none = failed not_found (codes "Request not found")
  authorized_answer (some req) = succeeded

  abbrev pub authorized_with :
      Store → AuthResponseBody → GoString → ℕ → TokenError ⊎ GoString → Store × Answer
  authorized_with s body user_id now (inl e) =
      (s, failed internal_error (codes "Token creation failed"))
  authorized_with s body user_id now (inr token) =
      let (s', found) = authorize_auth_request s body.public_key body.response user_id token now in
      (s', authorized_answer found)

  abbrev pub responded :
      Store → AuthResponseBody → ℕ → ℕ → Option GoString → Option GoString → Store × Answer
  responded s body now instant random none = (s, no_user)
  responded s body now instant random (some user_id) =
      authorized_with s body user_id now (create_token jwt user_id cfg instant random)

  unfoldable pub response :
      Store → Option GoString → Option AuthResponseBody → ℕ → ℕ → Option GoString → Store × Answer
  response s user none now instant random = (s, invalid_request)
  response s user (some body) now instant random =
      let done = responded s body now instant random (user_id_from_context user) in
      if is_empty body.public_key
      then (s, failed bad_request (codes "Invalid public key"))
      else if is_empty body.response
      then (s, failed bad_request (codes "Invalid response"))
      else done

abbrev request_status_answer : Option AuthRequest → Answer
request_status_answer none =
    answer ok_status ((codes "status", Json.string (codes "not_found")) ∷ [])
request_status_answer (some req) =
    let status = if is_empty req.token then codes "pending" else codes "authorized" in
    answer ok_status
      ((codes "status", Json.string status) ∷ (codes "supportsV2", Json.bool req.supports_v2) ∷ [])

unfoldable pub request_status : Store → GoString → Answer
request_status s public_key =
    if is_empty public_key
    then failed bad_request (codes "Invalid public key")
    else request_status_answer (get_auth_request s public_key)
