-- ===== src/Middleware/Authentication.antt =====
-- internal/middleware/auth.go: the `Authorization` header, and the user that a handler sees.
pub mod Bearer
use happy_server_lite.Base.{
  ℕ, ◌+◌, GoString, codes, is_empty, ◌==◌, Option, none, some, Bool, true, false, not, ◌&&◌, ◌⊎◌,
  inl, inr, if◌then◌else◌, List, [], ◌∷◌, map, ltb, leb, eqb,
}
use happy_server_lite.Auth.{TokenConfig, Claims, Jwt, TokenError, verify_token}

abbrev pub space : ℕ
space = 32

-- `strings.SplitN(s, " ", 2)` with two parts, if there is a space
unfoldable pub split_two : GoString → Option (GoString × GoString)
split_two [] = none
split_two (c ∷ s) =
    let rest : Option (GoString × GoString) = elim (split_two s) [
      | none ↦ none
      | some (scheme, token) ↦ some (c ∷ scheme, token)
    ] in
    if eqb c space then some ([], s) else rest

abbrev lower_byte : ℕ → ℕ
lower_byte c = if leb 65 c && leb c 90 then c + 32 else c

-- `strings.EqualFold(s, "Bearer")`: no letter of the word folds outside ASCII
unfoldable pub is_bearer : GoString → Bool
is_bearer s = map lower_byte s == codes "bearer"

module _ (jwt : Jwt) (cfg : TokenConfig) where
  abbrev pub accepted_user : TokenError ⊎ Claims → Option GoString
  accepted_user (inl e) = none
  accepted_user (inr claims) = some claims.user_id

  abbrev pub user_of_parts : Option (GoString × GoString) → Option GoString
  user_of_parts none = none
  user_of_parts (some (scheme, token)) =
      let checked = accepted_user (verify_token jwt token cfg) in
      if not (is_bearer scheme) then none else checked

  -- The id that `RequireAuth` sets; `none` is its refusal with status 401.
  unfoldable pub require_auth : GoString → Option GoString
  unfolding split_two
  require_auth auth_header = user_of_parts (split_two auth_header)

-- the id of the context, if it is set and not empty
abbrev pub user_id_from_context : Option GoString → Option GoString
user_id_from_context none = none
user_id_from_context (some value) = if is_empty value then none else some value
