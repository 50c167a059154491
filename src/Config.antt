-- ===== src/Config.antt =====
-- internal/config/config.go: the configuration, read from the environment, which is an argument. An
-- `int` and a `time.Duration` (nanoseconds) are 64-bit two's-complement patterns.
pub mod Loaded
use happy_server_lite.Base.{
  GoString, codes, is_empty, Option, none, some, Bool, true, false, not, ◌||◌, if◌then◌else◌, ℕ,
  ◌*◌, ◌%◌, ◌⊎◌, inl, inr, slt, two_64,
}
use happy_server_lite.Base.Strconv.{atoi}

pub record Config : Type 0 where
  pub port : ℕ
  pub master_secret : GoString
  pub gin_mode : GoString
  pub tls_cert_file : GoString
  pub tls_key_file : GoString
  pub token_expiry : ℕ
  pub machines_state_file : GoString

pub data ConfigError : Type 0 where
  invalid_port missing_master_secret invalid_token_expiry : ConfigError

-- `time.Second`
abbrev pub second : ℕ
second = 1000000000

abbrev default_port : ℕ
default_port = 3000

-- `7 * 24 * time.Hour`
abbrev default_expiry : ℕ
default_expiry = 604800 * second

abbrev release : GoString
release = codes "release"

-- `time.Duration(seconds) * time.Second`, which wraps around
abbrev duration_of : ℕ → ℕ
duration_of seconds = (seconds * second) % two_64

abbrev checked_port : Option ℕ → ConfigError ⊎ ℕ
checked_port none = inl ConfigError.invalid_port
checked_port (some port) =
    if not (slt 0 port) || slt 65535 port then inl ConfigError.invalid_port else inr port

unfoldable pub port_of : GoString → ConfigError ⊎ ℕ
port_of raw = if is_empty raw then inr default_port else checked_port (atoi raw)

abbrev checked_expiry : Option ℕ → ConfigError ⊎ ℕ
checked_expiry none = inl ConfigError.invalid_token_expiry
checked_expiry (some seconds) =
    if not (slt 0 seconds) then inl ConfigError.invalid_token_expiry else inr (duration_of seconds)

unfoldable pub expiry_of : GoString → ConfigError ⊎ ℕ
expiry_of raw = if is_empty raw then inr default_expiry else checked_expiry (atoi raw)

infixl 5 ◌>>=◌
abbrev pub ◌>>=◌ : {A B : Type 0} → ConfigError ⊎ A → (A → ConfigError ⊎ B) → ConfigError ⊎ B
inl e >>= f = inl e
inr a >>= f = f a

unfoldable pub secret_of : GoString → ConfigError ⊎ GoString
secret_of raw = if is_empty raw then inl ConfigError.missing_master_secret else inr raw

unfoldable pub load_config_from_env : (GoString → GoString) → ConfigError ⊎ Config
load_config_from_env getenv = do
  port ← port_of (getenv (codes "PORT"))
  secret ← secret_of (getenv (codes "MASTER_SECRET"))
  expiry ← expiry_of (getenv (codes "TOKEN_EXPIRY_SECONDS"))
  inr (record {
    port = port;
    master_secret = secret;
    gin_mode = if is_empty (getenv (codes "GIN_MODE")) then release else getenv (codes "GIN_MODE");
    tls_cert_file = getenv (codes "TLS_CERT_FILE");
    tls_key_file = getenv (codes "TLS_KEY_FILE");
    token_expiry = expiry;
    machines_state_file = getenv (codes "MACHINES_STATE_FILE");
  })
