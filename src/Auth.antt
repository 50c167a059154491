-- ===== src/Auth.antt =====
-- internal/auth: tokens and signatures. The JWT library, base64 and Ed25519 are parameters.
use happy_server_lite.Base.{
  ℕ, GoString, codes, is_empty, ◌+◌, Option, none, some, Bool, not, ◌⊎◌, inl, inr, if◌then◌else◌,
  slt, eqb, length, ◌==◌,
}

pub record TokenConfig : Type 0 where
  pub secret : GoString
  pub expiry : ℕ
  issuer : GoString

-- `DefaultTokenConfig`: seven days, in nanoseconds
abbrev pub default_token_config : GoString → TokenConfig
default_token_config secret = record {
  secret = secret;
  expiry = 604800000000000;
  issuer = codes "happy-server-lite";
}

-- The claims of a token. The times are the instants, in nanoseconds, whose numeric dates it carries.
pub record Claims : Type 0 where
  pub user_id : GoString
  issuer : GoString
  pub issued_at : ℕ
  pub expires_at : ℕ
  pub id : GoString
  pub subject : GoString

abbrev pub hs256 : GoString
hs256 = codes "HS256"

-- The JWT library: `SignedString` of a token with the method HS256, and `ParseWithClaims`, which asks
-- a function for the key of the token's method and gives the claims with the flag `Valid`.
pub record Jwt : Type 0 where
  pub signed_string : Claims → GoString → Option GoString
  pub parse_with_claims : GoString → (GoString → Option GoString) → Option (Claims × Bool)

pub data TokenError : Type 0 where
  missing_secret missing_user_id invalid_expiry no_randomness library_error signature_invalid :
      TokenError

-- the key function
abbrev pub key_of : TokenConfig → GoString → Option GoString
key_of cfg method = if not (method == hs256) then none else some cfg.secret

module _ (jwt : Jwt) where
  abbrev pub claims_of : TokenConfig → GoString → ℕ → GoString → Claims
  claims_of cfg user_id now jti = record {
    user_id = user_id;
    issuer = cfg.issuer;
    issued_at = now;
    expires_at = now + cfg.expiry;
    id = jti;
    subject = user_id;
  }

  abbrev pub signed : Option GoString → TokenError ⊎ GoString
  signed none = inl TokenError.library_error
  signed (some token) = inr token

  abbrev signed_with : TokenConfig → GoString → ℕ → Option GoString → TokenError ⊎ GoString
  signed_with cfg user_id now none = inl TokenError.no_randomness
  signed_with cfg user_id now (some jti) =
      signed (jwt.signed_string (claims_of cfg user_id now jti) cfg.secret)

  -- `random` is the hexadecimal text of the sixteen random bytes.
  unfoldable pub create_token : GoString → TokenConfig → ℕ → Option GoString → TokenError ⊎ GoString
  create_token user_id cfg now random =
      let made = signed_with cfg user_id now random in
      if is_empty cfg.secret
      then inl TokenError.missing_secret
      else if is_empty user_id
      then inl TokenError.missing_user_id
      else if not (slt 0 cfg.expiry)
      then inl TokenError.invalid_expiry
      else made

  abbrev checked_claims : Option (Claims × Bool) → TokenError ⊎ Claims
  checked_claims none = inl TokenError.library_error
  checked_claims (some (claims, valid)) =
      if not valid then inl TokenError.signature_invalid else inr claims

  unfoldable pub verify_token : GoString → TokenConfig → TokenError ⊎ Claims
  verify_token token cfg =
      let parsed = checked_claims (jwt.parse_with_claims token (key_of cfg)) in
      if is_empty cfg.secret then inl TokenError.missing_secret else parsed

-- `base64.StdEncoding.DecodeString` and `ed25519.Verify`
pub record Crypto : Type 0 where
  pub decode_string : GoString → Option GoString
  pub verify : GoString → GoString → GoString → Bool

pub data SignatureError : Type 0 where
  invalid_public_key invalid_signature : SignatureError

abbrev public_key_size : ℕ
public_key_size = 32

abbrev signature_size : ℕ
signature_size = 64

-- the bytes, if they decode and their length passes the test
abbrev sized : (ℕ → Bool) → Option GoString → Option GoString
sized fits none = none
sized fits (some bytes) = if fits (length bytes) then some bytes else none

module _ (crypto : Crypto) where
  -- `none` is no error
  abbrev verified_with : GoString → GoString → Option GoString → Option SignatureError
  verified_with public_key challenge none = some SignatureError.invalid_signature
  verified_with public_key challenge (some signature) =
      if not (crypto.verify public_key challenge signature)
      then some SignatureError.invalid_signature
      else none

  abbrev challenged_with : GoString → Option GoString → GoString → Option SignatureError
  challenged_with public_key none signature_b64 = some SignatureError.invalid_signature
  challenged_with public_key (some challenge) signature_b64 =
      verified_with public_key challenge
        (sized (eqb signature_size) (crypto.decode_string signature_b64))

  abbrev keyed_with : Option GoString → GoString → GoString → Option SignatureError
  keyed_with none challenge_b64 signature_b64 = some SignatureError.invalid_public_key
  keyed_with (some public_key) challenge_b64 signature_b64 =
      challenged_with public_key (sized (λ n. not (eqb n 0)) (crypto.decode_string challenge_b64))
        signature_b64

  unfoldable pub verify_signature_detailed : GoString → GoString → GoString → Option SignatureError
  verify_signature_detailed public_key_b64 challenge_b64 signature_b64 =
      keyed_with (sized (eqb public_key_size) (crypto.decode_string public_key_b64)) challenge_b64
        signature_b64
