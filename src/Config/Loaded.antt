-- ===== src/Config/Loaded.antt =====
-- What a configuration that was loaded satisfies.
use happy_server_lite.Base.{
  GoString, codes, [], ◌∷◌, some, ℕ, ◌⊎◌, inl, inr, ◌≡◌, ◌≢◌, refl, subst, ◌<◌, ◌≤◌, ◌*◌, ◌%◌,
  two_63, two_64, Bool-cases, ltb, ltb→lt, not-ltb→le, arith, Option-cases,
}
use happy_server_lite.Base.Strconv.{atoi, atoi-lt}
use happy_server_lite.Config.{
  Config, ConfigError, port_of, expiry_of, ◌>>=◌, secret_of, load_config_from_env,
}

port_of-range :
    (raw : GoString) (port : ℕ)
    → port_of raw ≡ inr port
    → (0 < port) × (port ≤ 65535) × (((raw ≡ []) × (port ≡ 3000)) ⊎ (atoi raw ≡ some port))
unfolding port_of
port_of-range [] port h = (ground (arith, h), ground (arith, h), inl (refl, ground (arith, h)))
port_of-range (c ∷ s) port h = elim (Option-cases (atoi (c ∷ s))) [
  | inl e ↦ absurd (ground (arith, h, e))
  | inr (n, e) ↦
      let small = atoi-lt (c ∷ s) n e in
      (ground (arith, h, e, small), ground (arith, h, e, small), inr (ground (arith, h, e, small)))
]

secret_of-ne : (raw s : GoString) → secret_of raw ≡ inr s → (s ≡ raw) × (s ≢ [])
unfolding secret_of
secret_of-ne [] s h = ground (arith, h)
secret_of-ne (c ∷ raw) s h = ground (arith, h)

-- Seconds in nanoseconds: exact up to 9223372036, and above what is left of the product in 64 bits.
abbrev pub Nanoseconds : ℕ → ℕ → Type 0
Nanoseconds n d =
    ((n ≤ 9223372036) × (d ≡ n * 1000000000) × (d < two_63))
    ⊎ ((9223372036 < n) × (d ≡ (n * 1000000000) % two_64))

-- The lifetime of a token in nanoseconds: a week unless TOKEN_EXPIRY_SECONDS is set, and then that
-- number, which is positive, in seconds.
abbrev pub Expires : GoString → ℕ → Type 0
Expires raw expiry =
    ((raw ≡ []) × (expiry ≡ 604800000000000))
    ⊎ ((n : ℕ) × (atoi raw ≡ some n) × (0 < n) × (n < two_63) × Nanoseconds n expiry)

product-Nanoseconds : (n : ℕ) → Nanoseconds n ((n * 1000000000) % two_64)
product-Nanoseconds n = elim (Bool-cases (ltb 9223372036 n)) [
  | inl long ↦ inr (ltb→lt _ _ long, refl)
  | inr short ↦ let h = not-ltb→le _ _ short in inl (h, omega arith, omega arith)
]

expiry_of-Expires : (raw : GoString) (expiry : ℕ) → expiry_of raw ≡ inr expiry → Expires raw expiry
unfolding expiry_of
expiry_of-Expires [] expiry h = inl (refl, ground (arith, h))
expiry_of-Expires (c ∷ s) expiry h = elim (Option-cases (atoi (c ∷ s))) [
  | inl e ↦ absurd (ground (arith, h, e))
  | inr (n, e) ↦
      let small = atoi-lt (c ∷ s) n e in
      let positive : 0 < n = ground (arith, h, e, small) in
      let below : n < two_63 = ground (arith, h, e, small) in
      let product : (n * 1000000000) % two_64 ≡ expiry = ground (arith, h, e, small) in
      inr (n, e, positive, below, subst (Nanoseconds n) product (product-Nanoseconds n))
]

bind-inr :
    {A B : Type 0} (m : ConfigError ⊎ A) (f : A → ConfigError ⊎ B) (b : B)
    → (m >>= f) ≡ inr b
    → (a : A) × (m ≡ inr a) × (f a ≡ inr b)
bind-inr (inl e) f b h = cc
bind-inr (inr a) f b h = (a, refl, h)

same_config : (c d : Config) → ◌≡◌ {A = ConfigError ⊎ Config} (inr c) (inr d) → c ≡ d
same_config c d h = cc h

abbrev pub IsValid : (GoString → GoString) → Config → Type 0
IsValid getenv cfg =
    (0 < cfg.port)
    × (cfg.port ≤ 65535)
    × (((getenv (codes "PORT") ≡ []) × (cfg.port ≡ 3000))
        ⊎ (atoi (getenv (codes "PORT")) ≡ some cfg.port))
    × (cfg.master_secret ≡ getenv (codes "MASTER_SECRET"))
    × (cfg.master_secret ≢ [])
    × Expires (getenv (codes "TOKEN_EXPIRY_SECONDS")) cfg.token_expiry
    × (cfg.machines_state_file ≡ getenv (codes "MACHINES_STATE_FILE"))
    × (cfg.tls_cert_file ≡ getenv (codes "TLS_CERT_FILE"))
    × (cfg.tls_key_file ≡ getenv (codes "TLS_KEY_FILE"))

-- A configuration that loads has a port from 1 to 65535, which is 3000 or the number in PORT, the secret
-- of the environment, which is not empty, and the file names of the environment. Its tokens live a week,
-- or for the positive number of seconds in TOKEN_EXPIRY_SECONDS, exactly up to 9223372036 and what is
-- left of the nanoseconds modulo 2 ^ 64 above.
pub load_config_from_env-IsValid :
    (getenv : GoString → GoString) (cfg : Config)
    → load_config_from_env getenv ≡ inr cfg
    → IsValid getenv cfg
unfolding load_config_from_env
load_config_from_env-IsValid getenv cfg h =
    let (port, p, h1) = bind-inr (port_of (getenv (codes "PORT"))) _ _ h in
    let (secret, q, h2) = bind-inr (secret_of (getenv (codes "MASTER_SECRET"))) _ _ h1 in
    let (expiry, r, h3) = bind-inr (expiry_of (getenv (codes "TOKEN_EXPIRY_SECONDS"))) _ _ h2 in
    let (low, high, given) = port_of-range _ _ p in
    let (own, some_secret) = secret_of-ne _ _ q in
    let expires = expiry_of-Expires _ _ r in
    subst (IsValid getenv) (same_config _ cfg h3)
      (low, high, given, own, some_secret, expires, refl, refl, refl)
