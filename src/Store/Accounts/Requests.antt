-- ===== src/Store/Accounts/Requests.antt =====
-- Authorisation requests: each public key runs through a small state machine.
use happy_server_lite.Base.{
  ℕ, GoString, ◌==◌, ==_iff, ◌≡◌, ◌≢◌, refl, ap, ◌∙◌, Bool-cases, Option, none, some, Bool, ◌||◌,
  inl, inr, Option-cases, lookup, insert, Map, lookup-insert, if◌then◌else◌, List, [], ◌∷◌, arith,
}
use happy_server_lite.Model.{AuthRequest}
use happy_server_lite.Store.State.{Store}
use happy_server_lite.Store.Accounts.{upsert_auth_request, authorize_auth_request}

pub data Call : Type 0 where
  upsert : (public_key : GoString) (supports_v2 : Bool) (new_id : GoString) (now : ℕ) → Call
  authorize : (public_key response response_account_id token : GoString) (now : ℕ) → Call

unfoldable pub step : Store → Call → Store
unfolding upsert_auth_request authorize_auth_request
step s (upsert k v2 id now) = (upsert_auth_request s k v2 id now).0
step s (authorize k response account token now) =
    (authorize_auth_request s k response account token now).0

unfoldable pub run : Store → List Call → Store
run s [] = s
run s (c ∷ cs) = run (step s c) cs

-- What a client that polls for one key depends on.
pub record Grant : Type 0 where
  pub supports_v2 : Bool
  pub response : GoString
  pub account : GoString
  pub token : GoString

abbrev grant_of : AuthRequest → Grant
grant_of q = record {
  supports_v2 = q.supports_v2;
  response = q.response;
  account = q.response_account_id;
  token = q.token;
}

abbrev pub grant_in : Map AuthRequest → GoString → Option Grant
grant_in requests k = elim (lookup k requests) [ none ↦ none | some q ↦ some (grant_of q) ]

abbrev pub grant_at : Store → GoString → Option Grant
grant_at s k = grant_in s.auth_requests_by_key k

-- The specification, for one key: a request opens the state or raises `supports_v2`, an
-- authorisation fills it in if it is open, and calls for other keys do nothing.
abbrev pub requested : Bool → Option Grant → Option Grant
requested v2 none = some (record { supports_v2 = v2; response = []; account = []; token = [] })
requested v2 (some g) = some (record g { supports_v2 = g.supports_v2 || v2 })

abbrev authorized : GoString → GoString → GoString → Option Grant → Option Grant
authorized response account token none = none
authorized response account token (some g) =
    some (record g { response = response; account = account; token = token })

abbrev pub next : GoString → Call → Option Grant → Option Grant
next k (upsert j v2 id now) g = if j == k then requested v2 g else g
next k (authorize j response account token now) g =
    if j == k then authorized response account token g else g

abbrev pub after_calls : GoString → List Call → Option Grant → Option Grant
after_calls k [] g = g
after_calls k (c ∷ cs) g = after_calls k cs (next k c g)

module _ (s : Store) (j k : GoString) where
  seen :
      (q : AuthRequest)
      → lookup k (insert j q s.auth_requests_by_key)
        ≡ (if j == k then some q else lookup k s.auth_requests_by_key)
  seen q = lookup-insert k j q s.auth_requests_by_key

  upsert-next :
      (v2 : Bool) (id : GoString) (now : ℕ)
      → grant_at (step s (upsert j v2 id now)) k ≡ next k (upsert j v2 id now) (grant_at s k)
  unfolding step
  upsert-next v2 id now = elim (Option-cases (lookup j s.auth_requests_by_key)) [
    | inl e ↦
        let q : AuthRequest = record {
          id = id;
          public_key = j;
          supports_v2 = v2;
          response = [];
          response_account_id = [];
          token = [];
          created_at = now;
          updated_at = now;
        } in
        ground (arith, e, seen q, ==_iff j k)
    | inr (old, e) ↦
        let q : AuthRequest = record old {
          supports_v2 = old.supports_v2 || v2;
          updated_at = now;
        } in
        ground (arith, e, seen q, ==_iff j k)
  ]

  authorize-next :
      (response account token : GoString) (now : ℕ)
      → grant_at (step s (authorize j response account token now)) k
        ≡ next k (authorize j response account token now) (grant_at s k)
  unfolding step
  authorize-next response account token now =
      elim (Option-cases (lookup j s.auth_requests_by_key)) [
        | inl e ↦ ground (arith, e, ==_iff j k)
        | inr (old, e) ↦
            let q : AuthRequest = record old {
              response = response;
              response_account_id = account;
              token = token;
              updated_at = now;
            } in
            ground (arith, e, seen q, ==_iff j k)
      ]

step-next : (s : Store) (c : Call) (k : GoString) → grant_at (step s c) k ≡ next k c (grant_at s k)
step-next s (upsert j v2 id now) k = upsert-next s j k v2 id now
step-next s (authorize j response account token now) k =
    authorize-next s j k response account token now

-- After any calls, what the store holds for a key is what the key's own state machine holds.
pub run-after_calls :
    (s : Store) (cs : List Call) (k : GoString)
    → grant_at (run s cs) k ≡ after_calls k cs (grant_at s k)
unfolding run
run-after_calls s [] k = refl
run-after_calls s (c ∷ cs) k =
    run-after_calls (step s c) cs k ∙ ap (after_calls k cs) (step-next s c k)

-- No call among these authorises the request of a key.
abbrev pub Leaves : GoString → List Call → Type 0
Leaves k [] = Unit {0}
Leaves k (upsert j v2 id now ∷ cs) = Leaves k cs
Leaves k (authorize j response account token now ∷ cs) = (j ≢ k) × Leaves k cs

-- The flag of a key after calls: once a poll of the key has raised it, it stays.
abbrev pub raised : GoString → List Call → Bool → Bool
raised k [] v2 = v2
raised k (upsert j b id now ∷ cs) v2 = raised k cs (if j == k then v2 || b else v2)
raised k (authorize j response account token now ∷ cs) v2 = raised k cs v2

-- Calls that do not authorise a key leave what it was granted; only its flag may go up.
pub after_calls-Leaves :
    (k : GoString) (cs : List Call) (g : Grant)
    → Leaves k cs
    → after_calls k cs (some g) ≡ some (record g { supports_v2 = raised k cs g.supports_v2 })
after_calls-Leaves k [] g h = refl
after_calls-Leaves k (upsert j b id now ∷ cs) g h = elim (Bool-cases (j == k)) [
  | inl hit ↦ rw hit (after_calls-Leaves k cs (record g { supports_v2 = g.supports_v2 || b }) h)
  | inr miss ↦ rw miss (after_calls-Leaves k cs g h)
]
after_calls-Leaves k (authorize j response account token now ∷ cs) g h =
    elim (Bool-cases (j == k)) [
      | inl hit ↦ absurd (h.0 ((==_iff j k).0 hit))
      | inr miss ↦ rw miss (after_calls-Leaves k cs g h.1)
    ]
