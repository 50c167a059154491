-- ===== src/Tests/RateLimit.antt =====
-- The theorems on the rate limiter, with two requests left in a window.
use happy_server_lite.Base.{GoString, List, [], ◌∷◌, ◌≡◌, refl, ◌==◌, lookup, arith, ℕ, ◌-◌}
use happy_server_lite.Tests.Data.{alice, bob}
use happy_server_lite.Middleware.RateLimit.{RequestInfo, RateLimiter, run, cleanup_round}
use happy_server_lite.Middleware.RateLimit.Window.{asked, granted}
use Prim.Native.Nat.{min}
use happy_server_lite.Middleware.RateLimit.Window.{run-granted}
use happy_server_lite.Middleware.RateLimit.Cleanup.{run-cleanup_round}

abbrev info_1 : RequestInfo
info_1 = record { count = 1; reset_at = 100 }

abbrev limiter_1 : RateLimiter
limiter_1 = record { requests = (alice, info_1) ∷ []; limit = 3; window = 100 }

abbrev requests_1 : List (GoString × ℕ)
requests_1 = (alice, 50) ∷ (bob, 60) ∷ (alice, 70) ∷ (alice, 80) ∷ []

run-granted_example :
    granted alice requests_1 (run limiter_1 requests_1).1
    ≡ min (limiter_1.limit - info_1.count) (asked alice requests_1)
unfolding lookup ◌==◌
run-granted_example =
    run-granted limiter_1 alice info_1 requests_1 refl (omega arith) (omega arith) (omega arith)

run-cleanup_round_example :
    (run (cleanup_round limiter_1 50) requests_1).1 ≡ (run limiter_1 requests_1).1
unfolding lookup ◌==◌
run-cleanup_round_example = run-cleanup_round limiter_1 50 requests_1 (refl, tt) (omega arith)
