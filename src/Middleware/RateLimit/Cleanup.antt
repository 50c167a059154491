-- ===== src/Middleware/RateLimit/Cleanup.antt =====
-- The cleanup is invisible: it removes only what the next request would replace anyway.
use mathlib.Core.Path.{ap₂}
use happy_server_lite.Base.{
  ℕ, ◌+◌, ◌≤◌, ◌≡◌, refl, ap, GoString, ==_iff, Option, none, some, true, false, lookup,
  lookup-insert, slt, inc64, if◌then◌else◌, List, [], ◌∷◌, Bool-cases, Option-cases, inl, inr,
  arith, Unique, Map,
}
use happy_server_lite.Middleware.RateLimit.{
  RequestInfo, RateLimiter, put, expired, allow, count_request, run, sweep, cleanup_round,
}

-- What is left of an entry at a time.
abbrev pub live : ℕ → Option RequestInfo → Option RequestInfo
live now none = none
live now (some info) = if expired now info then none else some info

lookup-sweep :
    (now : ℕ) (m : Map RequestInfo) (k : GoString)
    → Unique m
    → lookup k (sweep now m) ≡ live now (lookup k m)
unfolding lookup sweep
lookup-sweep now [] k u = refl
lookup-sweep now ((j, info) ∷ m) k u =
    ground (arith, lookup-sweep now m k u.1, ==_iff j k, u.0, ap (λ (t : GoString). lookup t m))

-- Two limiters that no request from the time `now` on can tell apart.
record Same (now : ℕ) (a b : RateLimiter) : Type 0 where
  limit : a.limit ≡ b.limit
  window : a.window ≡ b.window
  entries : (k : GoString) → live now (lookup k a.requests) ≡ live now (lookup k b.requests)

live_idem : (now : ℕ) (o : Option RequestInfo) → live now (live now o) ≡ live now o
live_idem now none = refl
live_idem now (some info) = ground arith

cleanup_round-Same :
    (rl : RateLimiter) (now : ℕ) → Unique rl.requests → Same now (cleanup_round rl now) rl
unfolding cleanup_round
cleanup_round-Same rl now u = record {
  limit = ground arith;
  window = ground arith;
  entries =
      λ k. ground (arith, lookup-sweep now rl.requests k u, live_idem now (lookup k rl.requests));
}

-- From the time `now` on, no time goes back.
abbrev Ascending : ℕ → List (GoString × ℕ) → Type 0
Ascending now [] = Unit {0}
Ascending now ((key, t) ∷ calls) = (now ≤ t) × Ascending t calls

live_mono :
    (now later : ℕ) (a b : Option RequestInfo)
    → now ≤ later
    → live now a ≡ live now b
    → live later a ≡ live later b
live_mono now later none none h e = refl
live_mono now later none (some b) h e = ground arith
live_mono now later (some a) none h e = ground arith
live_mono now later (some a) (some b) h e = ground arith

module _ (now t : ℕ) (key : GoString) (a b : RateLimiter) (h : now ≤ t) (s : Same now a b) where
  entries_at : (k : GoString) → live t (lookup k a.requests) ≡ live t (lookup k b.requests)
  entries_at k = live_mono now t (lookup k a.requests) (lookup k b.requests) h (s.entries k)

  put-Same : (info : RequestInfo) → Same t (put a key info) (put b key info)
  put-Same info = record {
    limit = s.limit;
    window = s.window;
    entries = λ k. ground (
      arith,
      lookup-insert k key info a.requests,
      lookup-insert k key info b.requests,
      entries_at k,
    );
  }

  kept : Same t a b
  kept = record { limit = s.limit; window = s.window; entries = entries_at }

count-Same :
    (now t : ℕ) (key : GoString) (a b : RateLimiter)
    → now ≤ t
    → Same now a b
    → (info : RequestInfo)
    → ((count_request a key info).1 ≡ (count_request b key info).1)
      × Same t (count_request a key info).0 (count_request b key info).0
unfolding count_request
count-Same now t key a b h s info = elim (Bool-cases (slt info.count a.limit)) [
  | inl room ↦
      let more : RequestInfo = record info { count = inc64 info.count } in
      let qa : count_request a key info ≡ (put a key more, true) = ground (arith, room) in
      let qb : count_request b key info ≡ (put b key more, true) = ground (arith, room, s.limit) in
      rw (qa, qb) (refl, put-Same now t key a b h s more)
  | inr full ↦
      let qa : count_request a key info ≡ (a, false) = ground (arith, full) in
      let qb : count_request b key info ≡ (b, false) = ground (arith, full, s.limit) in
      rw (qa, qb) (refl, kept now t key a b h s)
]

-- `Allow` reads only what is left of the key's entry.
allow-live :
    (rl : RateLimiter) (key : GoString) (t : ℕ)
    → allow rl key t ≡ (elim (live t (lookup key rl.requests)) [
      | none ↦ (put rl key (record { count = 1; reset_at = t + rl.window }), true)
      | some info ↦ count_request rl key info
    ])
unfolding allow
allow-live rl key t = ground arith

allow-Same :
    (now t : ℕ) (key : GoString) (a b : RateLimiter)
    → now ≤ t
    → Same now a b
    → ((allow a key t).1 ≡ (allow b key t).1) × Same t (allow a key t).0 (allow b key t).0
allow-Same now t key a b h s = elim (Option-cases (live t (lookup key a.requests))) [
  | inl e ↦
      let fresh : RequestInfo = record { count = 1; reset_at = t + a.window } in
      let qa : allow a key t ≡ (put a key fresh, true) = ground (arith, allow-live a key t, e) in
      let qb : allow b key t ≡ (put b key fresh, true) =
        ground (arith, allow-live b key t, e, entries_at now t key a b h s key, s.window) in
      rw (qa, qb) (refl, put-Same now t key a b h s fresh)
  | inr (info, e) ↦
      let qa : allow a key t ≡ count_request a key info = ground (arith, allow-live a key t, e) in
      let qb : allow b key t ≡ count_request b key info =
        ground (arith, allow-live b key t, e, entries_at now t key a b h s key) in
      rw (qa, qb) (count-Same now t key a b h s info)
]

run-Same :
    (now : ℕ) (a b : RateLimiter) (calls : List (GoString × ℕ))
    → Ascending now calls
    → Same now a b
    → (run a calls).1 ≡ (run b calls).1
unfolding run
run-Same now a b [] up s = refl
run-Same now a b ((key, t) ∷ calls) up s =
    let (answer, next) = allow-Same now t key a b up.0 s in
    ap₂ ◌∷◌ answer (run-Same t (allow a key t).0 (allow b key t).0 calls up.1 next)

-- In a map with distinct keys, a round of the cleanup changes no answer to the requests that come
-- after it, where time does not go back.
pub run-cleanup_round :
    (rl : RateLimiter) (now : ℕ) (calls : List (GoString × ℕ))
    → Unique rl.requests
    → Ascending now calls
    → (run (cleanup_round rl now) calls).1 ≡ (run rl calls).1
run-cleanup_round rl now calls u up =
    run-Same now (cleanup_round rl now) rl calls up (cleanup_round-Same rl now u)
