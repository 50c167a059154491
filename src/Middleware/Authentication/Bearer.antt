-- ===== src/Middleware/Authentication/Bearer.antt =====
-- Whom the header authenticates.
use happy_server_lite.Base.{
  ℕ, GoString, codes, is_empty, ◌==◌, ◌≡◌, refl, ap, ◌∙◌, Option, none, some, true, false, ◌⊎◌, inl,
  inr, [], ◌∷◌, ◌++◌, arith, Option-cases,
}
use happy_server_lite.Base.Pointers.{contains}
use happy_server_lite.Auth.{
  TokenConfig, Claims, Jwt, TokenError, hs256, key_of, claims_of, signed, create_token,
  verify_token,
}
use happy_server_lite.Middleware.Authentication.{
  space, split_two, is_bearer, accepted_user, user_of_parts, require_auth,
}

split_two-append :
    (scheme token : GoString)
    → contains scheme space ≡ false
    → split_two (scheme ++ space ∷ token) ≡ some (scheme, token)
unfolding split_two contains
split_two-append [] token h = ground arith
split_two-append (c ∷ scheme) token h = ground (arith, h, split_two-append scheme token)

split_two-some :
    (s scheme token : GoString) → split_two s ≡ some (scheme, token) → s ≡ scheme ++ space ∷ token
unfolding split_two
split_two-some [] scheme token h = absurd (ground (arith, h))
split_two-some (c ∷ s) scheme token h = elim (Option-cases (split_two s)) [
  | inl e ↦ ground (arith, h, e)
  | inr ((a, b), e) ↦ ground (arith, h, e, split_two-some s a b e)
]

no_space : contains (codes "Bearer") space ≡ false
unfolding contains
no_space = refl

bearer_word : is_bearer (codes "Bearer") ≡ true
unfolding is_bearer ◌==◌
bearer_word = refl

hs256_key : (cfg : TokenConfig) → key_of cfg hs256 ≡ some cfg.secret
unfolding ◌==◌
hs256_key cfg = refl

-- The header is the word `Bearer`, in any case, a space, and a token that the check accepts for the
-- user.
pub record IsAuthenticated (jwt : Jwt) (cfg : TokenConfig) (header user : GoString) : Type 0 where
  pub scheme : GoString
  pub token : GoString
  pub claims : Claims
  pub shape : header ≡ scheme ++ space ∷ token
  pub bearer : is_bearer scheme ≡ true
  pub accepted : verify_token jwt token cfg ≡ inr claims
  pub named : claims.user_id ≡ user

module _ (jwt : Jwt) (cfg : TokenConfig) where
  accepted_user-some :
      (o : TokenError ⊎ Claims) (user : GoString)
      → accepted_user jwt cfg o ≡ some user
      → (claims : Claims) × (o ≡ inr claims) × (claims.user_id ≡ user)
  accepted_user-some (inl e) user h = absurd (ground (arith, h))
  accepted_user-some (inr claims) user h = (claims, refl, ground (arith, h))

  -- Where the middleware lets a request pass for a user, its header is `Bearer`, in any case, and a
  -- token that the check accepts for that user.
  pub require_auth-IsAuthenticated :
      (header user : GoString)
      → require_auth jwt cfg header ≡ some user
      → IsAuthenticated jwt cfg header user
  unfolding require_auth
  require_auth-IsAuthenticated header user h = elim (Option-cases (split_two header)) [
    | inl e ↦ absurd (ground (arith, h, e))
    | inr ((scheme, token), e) ↦
        let checked = verify_token jwt token cfg in
        let bearer : is_bearer scheme ≡ true = ground (arith, h, e) in
        let accepted : accepted_user jwt cfg checked ≡ some user = ground (arith, h, e) in
        let (claims, same, named) = accepted_user-some checked user accepted in
        record {
          scheme = scheme;
          token = token;
          claims = claims;
          shape = split_two-some header scheme token e;
          bearer = bearer;
          accepted = same;
          named = named;
        }
  ]

  signed-some : (o : Option GoString) (token : GoString) → signed jwt o ≡ inr token → o ≡ some token
  signed-some none token h = absurd (ground (arith, h))
  signed-some (some t) token h = ground (arith, h)

  created :
      (user token : GoString) (now : ℕ) (random : Option GoString)
      → create_token jwt user cfg now random ≡ inr token
      → (jti : GoString) × (jwt.signed_string (claims_of jwt cfg user now jti) cfg.secret
          ≡ some token)
        × (is_empty cfg.secret ≡ false)
  unfolding create_token
  created user token now random h = elim (Option-cases random) [
    | inl e ↦ absurd (ground (arith, h, e))
    | inr (jti, e) ↦ (
      jti,
      signed-some (jwt.signed_string (claims_of jwt cfg user now jti) cfg.secret) token
          (ground (arith, h, e)),
      ground (arith, h),
    )
  ]

  -- As long as the JWT library reads back, under the key of the signature, the claims that it has
  -- signed for a user, a token that is created for the user authenticates the user behind `Bearer` and
  -- a space.
  pub require_auth-create_token :
      (user token : GoString) (now : ℕ) (random : Option GoString)
      → ((jti signed_token : GoString) (key_for : GoString → Option GoString)
          → jwt.signed_string (claims_of jwt cfg user now jti) cfg.secret ≡ some signed_token
          → key_for hs256 ≡ some cfg.secret
          → jwt.parse_with_claims signed_token key_for
            ≡ some (claims_of jwt cfg user now jti, true))
      → create_token jwt user cfg now random ≡ inr token
      → require_auth jwt cfg (codes "Bearer" ++ space ∷ token) ≡ some user
  unfolding require_auth verify_token
  require_auth-create_token user token now random reads h =
      let (jti, signed_as, secret) = created user token now random h in
      let parsed = reads jti token (key_of cfg) signed_as (hs256_key cfg) in
      let parts = split_two-append (codes "Bearer") token no_space in
      ap (user_of_parts jwt cfg) parts ∙ ground (arith, bearer_word, parsed, secret)
