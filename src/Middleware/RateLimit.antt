-- ===== src/Middleware/RateLimit.antt =====
-- internal/middleware/ratelimit.go. The clock's answer is an argument: a time is a number of
-- nanoseconds, and so is the window. The counter and the limit are `int`s.
pub mod Window
pub mod Cleanup
use happy_server_lite.Base.{
  ℕ, ◌+◌, GoString, Option, none, some, Bool, true, false, not, lookup, insert, ltb, slt, inc64,
  if◌then◌else◌, List, [], ◌∷◌, Map, eqb,
}

pub record RequestInfo : Type 0 where
  pub count : ℕ
  pub reset_at : ℕ

pub record RateLimiter : Type 0 where
  pub requests : Map RequestInfo
  pub limit : ℕ
  pub window : ℕ

-- `NewRateLimiterWithNow`, without the goroutine that it starts: `cleanup_round` is a round of that
unfoldable pub new_rate_limiter : ℕ → ℕ → RateLimiter
new_rate_limiter limit window = record { requests = []; limit = limit; window = window }

-- `now.After(info.resetAt)`
abbrev pub expired : ℕ → RequestInfo → Bool
expired now info = ltb info.reset_at now

abbrev pub put : RateLimiter → GoString → RequestInfo → RateLimiter
put rl key info = record rl { requests = insert key info rl.requests }

-- the tail of `Allow`, for a window that is still open
unfoldable pub count_request : RateLimiter → GoString → RequestInfo → RateLimiter × Bool
count_request rl key info =
    if not (slt info.count rl.limit)
    then (rl, false)
    else (put rl key (record info { count = inc64 info.count }), true)

unfoldable pub allow : RateLimiter → GoString → ℕ → RateLimiter × Bool
unfolding count_request
allow rl key now =
    let fresh = put rl key (record { count = 1; reset_at = now + rl.window }) in
    elim (lookup key rl.requests) [
      | none ↦ (fresh, true)
      | some info ↦ if expired now info then (fresh, true) else count_request rl key info
    ]

-- the loop over the map in `cleanup`
unfoldable pub sweep : ℕ → Map RequestInfo → Map RequestInfo
sweep now [] = []
sweep now ((key, info) ∷ m) = if expired now info then sweep now m else (key, info) ∷ sweep now m

-- one round of `cleanup`, which returns at once if there is no window
unfoldable pub cleanup_round : RateLimiter → ℕ → RateLimiter
unfolding sweep
cleanup_round rl now =
    if eqb rl.window 0 then rl else record rl { requests = sweep now rl.requests }

-- The answers to a sequence of requests, each with its key and its time.
unfoldable pub run : RateLimiter → List (GoString × ℕ) → RateLimiter × List Bool
run rl [] = (rl, [])
run rl ((key, now) ∷ calls) =
    let (rl', allowed) = allow rl key now in
    let (last, rest) = run rl' calls in (last, allowed ∷ rest)
