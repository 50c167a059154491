-- ===== src/Http/Logins/Pairing.antt =====
-- A client that polls for a login, and the one that grants it.
use happy_server_lite.Base.{
  ℕ, GoString, codes, is_empty, ◌≡◌, ◌≢◌, refl, ap, ◌∙◌, ==_refl, Option, none, some, Bool, true,
  false, not, ◌||◌, ◌⊎◌, inl, inr, if◌then◌else◌, lookup, arith, [], ◌∷◌, List, Map, Option-cases,
}
use happy_server_lite.Json.{Json}
use happy_server_lite.Model.{AuthRequest}
use happy_server_lite.Auth.{TokenConfig, Jwt, create_token}
use happy_server_lite.Store.Accounts.{get_auth_request, upsert_auth_request, authorize_auth_request}
use happy_server_lite.Store.State.{Store}
use happy_server_lite.Store.Accounts.Requests as Requests
use happy_server_lite.Http.Answers.{Answer, answer, ok_status, too_many_requests, succeeded}
use happy_server_lite.Http.Logins.{
  Api, AuthRequestBody, AuthResponseBody, asked, request, requested, request_for, response,
}

-- the answer to a poll once the login is granted
abbrev pub granted : GoString → GoString → Bool → Answer
granted token reply supports_v2 = answer ok_status (
    (codes "state", Json.string (codes "authorized"))
    ∷ (codes "token", Json.string token)
    ∷ (codes "response", Json.string reply)
    ∷ (codes "supportsV2", Json.bool supports_v2)
    ∷ [])

-- A poll of a key that is granted a token is answered from the grant, and the limiter is not asked.
request-granted :
    (api : Api) (poll : AuthRequestBody) (ip new_id : GoString) (now instant : ℕ)
    (g : Requests.Grant)
    → is_empty poll.public_key ≡ false
    → is_empty g.token ≡ false
    → Requests.grant_at api.store poll.public_key ≡ some g
    → let (api', a) = request api (some poll) ip new_id now instant in
      (a ≡ granted g.token g.response (g.supports_v2 || poll.supports_v2))
      × (api'.limiter ≡ api.limiter)
unfolding request get_auth_request upsert_auth_request
request-granted api poll ip new_id now instant g named made held =
    elim (Option-cases (lookup poll.public_key api.store.auth_requests_by_key)) [
      | inl e ↦ absurd (ground (arith, held, e))
      | inr (q, e) ↦ ground (arith, named, made, held, e)
    ]

response-authorize :
    (jwt : Jwt) (cfg : TokenConfig) (s : Store) (req : AuthRequest) (user token : GoString)
    (grant : AuthResponseBody) (now instant : ℕ) (random : Option GoString)
    → is_empty user ≡ false
    → is_empty grant.public_key ≡ false
    → is_empty grant.response ≡ false
    → create_token jwt user cfg instant random ≡ inr token
    → get_auth_request s grant.public_key ≡ some req
    → response jwt cfg s (some user) (some grant) now instant random ≡ (
      Requests.step s (Requests.authorize grant.public_key grant.response user token now),
      succeeded,
    )
unfolding response get_auth_request authorize_auth_request Requests.step
response-authorize jwt cfg s req user token grant now instant random named key reply made_by known =
    ground (arith, named, key, reply, made_by, known)

-- A user who answers a request that is there, with a token that can be made, is told of the success.
-- After any further polls, of this key or others, and any answers to other keys, with the store's
-- requests as these leave them and the rest of the server in any state, a poll for that key gets the
-- token and the response, without a look at the limiter, and the flag that is up if the request's, one
-- of the polls' or its own is.
pub response-request :
    (jwt : Jwt) (cfg : TokenConfig) (s : Store) (req : AuthRequest) (user token : GoString)
    (grant : AuthResponseBody) (calls : List Requests.Call) (api : Api) (poll : AuthRequestBody)
    (ip new_id : GoString) (now instant later later_instant : ℕ) (random : Option GoString)
    → is_empty user ≡ false
    → is_empty grant.public_key ≡ false
    → is_empty grant.response ≡ false
    → is_empty token ≡ false
    → create_token jwt user cfg instant random ≡ inr token
    → get_auth_request s grant.public_key ≡ some req
    → Requests.Leaves grant.public_key calls
    → let (s', a) = response jwt cfg s (some user) (some grant) now instant random in
      api.store.auth_requests_by_key ≡ (Requests.run s' calls).auth_requests_by_key
      → poll.public_key ≡ grant.public_key
      → let (api', b) = request api (some poll) ip new_id later later_instant in
        (a ≡ succeeded)
        × (b
            ≡ granted token grant.response
                (Requests.raised grant.public_key calls req.supports_v2 || poll.supports_v2))
        × (api'.limiter ≡ api.limiter)
unfolding Requests.run get_auth_request
response-request jwt cfg s req user token grant calls api poll ip new_id now instant later
      later_instant random named key reply made made_by known left kept same =
    let k = grant.public_key in
    let c = Requests.authorize k grant.response user token now in
    let g : Requests.Grant = record {
      supports_v2 = req.supports_v2;
      response = grant.response;
      account = user;
      token = token;
    } in
    let answered : response jwt cfg s (some user) (some grant) now instant random
        ≡ (Requests.step s c, succeeded) =
      response-authorize jwt cfg s req user token grant now instant random named key reply made_by
        known in
    let opened : Requests.next k c (Requests.grant_at s k) ≡ some g =
      ground (arith, known, ==_refl k) in
    let stored =
      kept ∙ ap (λ (x : Store × Answer). (Requests.run x.0 calls).auth_requests_by_key) answered in
    let polled : Requests.Grant = record g {
      supports_v2 = Requests.raised k calls req.supports_v2;
    } in
    let held : Requests.grant_at api.store k ≡ some polled =
      ap (λ (m : Map AuthRequest). Requests.grant_in m k) stored
      ∙ Requests.run-after_calls s (c ∷ calls) k
      ∙ ap (Requests.after_calls k calls) opened
      ∙ Requests.after_calls-Leaves k calls g left in
    let (told, unasked) =
      request-granted api poll ip new_id later later_instant polled (rw same key) made
        (rw same held) in
    (ap (λ (x : Store × Answer). x.1) answered, told, unasked)

if-status :
    (test : Bool) (x y : Api × Answer)
    → (if test then x else y).1.status ≡ too_many_requests
    → ((test ≡ true) × (x.1.status ≡ too_many_requests))
      ⊎ ((test ≡ false) × (y.1.status ≡ too_many_requests))
if-status true x y h = inl (refl, h)
if-status false x y h = inr (refl, h)

requested-status :
    (api : Api) (body : AuthRequestBody) (new_id : GoString) (now : ℕ)
    → (requested api body new_id now).1.status ≢ too_many_requests
requested-status api body new_id now h = ground (arith, h)

request_for-refused :
    (api : Api) (body : AuthRequestBody) (ip new_id : GoString) (now instant : ℕ)
    (known : Option AuthRequest)
    → let (api', a) = request_for api body ip new_id now instant known in
      a.status ≡ too_many_requests
      → (known ≡ none) × ((asked api.limiter ip instant).1 ≡ false) × (api'.store ≡ api.store)
request_for-refused api body ip new_id now instant (some req) h =
    absurd (requested-status api body new_id now h)
request_for-refused api body ip new_id now instant none h =
    let (limiter, allowed) = asked api.limiter ip instant in
    elim (if-status (not allowed) _ (requested (record api { limiter = limiter }) body new_id now)
      h) [
        | inl (refused, e) ↦ (refl, ground (arith, refused), rw refused refl)
        | inr (passed, e) ↦
            absurd (requested-status (record api { limiter = limiter }) body new_id now e)
      ]

-- A request for a login that is answered with status 429 names a key that no request is stored for, the
-- limiter has refused the client, and the store stays as it was.
pub request-refused :
    (api : Api) (body : AuthRequestBody) (ip new_id : GoString) (now instant : ℕ)
    → (request api (some body) ip new_id now instant).1.status ≡ too_many_requests
    → (get_auth_request api.store body.public_key ≡ none)
      × ((asked api.limiter ip instant).1 ≡ false)
      × ((request api (some body) ip new_id now instant).0.store ≡ api.store)
unfolding request
request-refused api body ip new_id now instant h =
    elim (if-status (is_empty body.public_key) _ _ h) [
      | inl (empty, e) ↦ absurd (ground (arith, e))
      | inr (named, e) ↦
          let known = get_auth_request api.store body.public_key in
          let (unknown, refused, same) =
            request_for-refused api body ip new_id now instant known e in
          (unknown, refused, rw named same)
    ]
