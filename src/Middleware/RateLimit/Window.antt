-- ===== src/Middleware/RateLimit/Window.antt =====
-- How many requests of a key go through in one window.
use happy_server_lite.Base.{
  ℕ, suc, ◌+◌, ◌-◌, ◌≤◌, ◌<◌, ◌≡◌, ap, ◌∙◌, Option-cases, GoString, ◌==◌, ==_iff, ==_refl, ◌⊎◌,
  none, some, Bool, true, false, lookup, lookup-insert, lookup-insert_self, ltb, ltb→lt, not-ltb→le,
  slt_small, inc64, two_63, if◌then◌else◌, List, [], ◌∷◌, Bool-cases, inl, inr, arith,
}
use Prim.Native.Nat.{min}
use happy_server_lite.Middleware.RateLimit.{RequestInfo, RateLimiter, put, allow, run}

-- The requests of a key in a sequence, and those of them that were let through.
abbrev pub asked : GoString → List (GoString × ℕ) → ℕ
asked key [] = 0
asked key ((j, now) ∷ calls) = if j == key then suc (asked key calls) else asked key calls

abbrev pub granted : GoString → List (GoString × ℕ) → List Bool → ℕ
granted key [] answers = 0
granted key (call ∷ calls) [] = 0
granted key ((j, now) ∷ calls) (answer ∷ answers) =
    let rest = granted key calls answers in
    if j == key then (if answer then suc rest else rest) else rest

abbrev AllBy : ℕ → List (GoString × ℕ) → Type 0
AllBy end [] = Unit {0}
AllBy end ((j, now) ∷ calls) = (now ≤ end) × AllBy end calls

limit-allow : (rl : RateLimiter) (j : GoString) (now : ℕ) → (allow rl j now).0.limit ≡ rl.limit
unfolding allow
limit-allow rl j now = ground arith

lookup-allow_ne :
    (rl : RateLimiter) (j key : GoString) (now : ℕ)
    → (j == key) ≡ false
    → lookup key (allow rl j now).0.requests ≡ lookup key rl.requests
unfolding allow
lookup-allow_ne rl j key now other =
    let fresh : RequestInfo = record { count = 1; reset_at = now + rl.window } in
    elim (Option-cases (lookup j rl.requests)) [
      | inl e ↦ ground (arith, e, other, lookup-insert key j fresh rl.requests)
      | inr (i, e) ↦
          let more : RequestInfo = record i { count = inc64 i.count } in
          ground (
            arith,
            e,
            other,
            lookup-insert key j fresh rl.requests,
            lookup-insert key j more rl.requests,
          )
    ]

module _ (rl : RateLimiter) (key : GoString) (info : RequestInfo) (now : ℕ)
    (found : lookup key rl.requests ≡ some info) (open_ : now ≤ info.reset_at)
    (small : rl.limit < two_63) where
  allow_full : info.count ≡ rl.limit → allow rl key now ≡ (rl, false)
  unfolding allow
  allow_full full = ground (arith, slt_small info.count rl.limit)

  allow_room :
      info.count < rl.limit
      → allow rl key now ≡ (put rl key (record info { count = info.count + 1 }), true)
  unfolding allow
  allow_room room =
      let next : inc64 info.count ≡ info.count + 1 = omega arith in
      ground (arith, slt_small info.count rl.limit, next)

-- For a limit below 2 ^ 63 and a count within it: while the window of a key is open, exactly as many of its requests go through as the limit leaves
-- room for, however many there are and whatever other keys do.
pub run-granted :
    (rl : RateLimiter) (key : GoString) (info : RequestInfo) (calls : List (GoString × ℕ))
    → lookup key rl.requests ≡ some info
    → AllBy info.reset_at calls
    → info.count ≤ rl.limit
    → rl.limit < two_63
    → granted key calls (run rl calls).1 ≡ min (rl.limit - info.count) (asked key calls)
unfolding run
run-granted rl key info [] e by room small = omega arith
run-granted rl key info ((j, now) ∷ calls) e by room small = elim (Bool-cases (j == key)) [
  | inr other ↦
      let l = limit-allow rl j now in
      let rest =
        run-granted (allow rl j now).0 key info calls (lookup-allow_ne rl j key now other ∙ e) by.1
          (omega (arith, l)) (omega (arith, l)) in
      rw other (omega (arith, rest, l))
  | inl own ↦
      let k = (==_iff j key).0 own in
      elim (Bool-cases (ltb info.count rl.limit)) [
        | inl space ↦
            let info' : RequestInfo = record info { count = info.count + 1 } in
            let below = ltb→lt info.count rl.limit space in
            let answer =
              ap (λ (t : GoString). allow rl t now) k
              ∙ allow_room rl key info now e by.0 small below in
            let rest =
              run-granted (put rl key info') key info' calls
                (lookup-insert_self key info' rl.requests) by.1 (omega arith) small in
            rw (own, answer) (omega (arith, rest))
        | inr full ↦
            let above = not-ltb→le info.count rl.limit full in
            let answer =
              ap (λ (t : GoString). allow rl t now) k
              ∙ allow_full rl key info now e by.0 small (omega arith) in
            let rest = run-granted rl key info calls e by.1 room small in
            rw (own, answer) (omega (arith, rest))
      ]
]

-- The first request of a new key, or after the key's window has ended, opens a window. Of it and the
-- key's later requests in that window the first `limit` go through, for a limit of at least 1
-- and below 2 ^ 63.
run-granted_new_window :
    (rl : RateLimiter) (key : GoString) (now : ℕ) (calls : List (GoString × ℕ))
    → (lookup key rl.requests ≡ none)
      ⊎ ((info : RequestInfo) × (lookup key rl.requests ≡ some info) × (info.reset_at < now))
    → AllBy (now + rl.window) calls
    → 0 < rl.limit
    → rl.limit < two_63
    → granted key ((key, now) ∷ calls) (run rl ((key, now) ∷ calls)).1
      ≡ min rl.limit (suc (asked key calls))
unfolding run allow
run-granted_new_window rl key now calls ended by positive small =
    let fresh : RequestInfo = record { count = 1; reset_at = now + rl.window } in
    let opened : allow rl key now ≡ (put rl key fresh, true) = elim ended [
      | inl e ↦ ground (arith, e)
      | inr (info, e, late) ↦ ground (arith, e)
    ] in
    let rest =
      run-granted (put rl key fresh) key fresh calls (lookup-insert_self key fresh rl.requests) by
        positive small in
    rw (opened, ==_refl key) (omega (arith, rest))
