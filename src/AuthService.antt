-- ===== src/AuthService.antt =====
-- auth-service: services/auth_service.py, method by method, with the routes of api/v1/auth.py. The
-- state is the users table and the Redis server; a call reads the clock once.
pub mod Migrations
pub mod Users
pub mod Rotation
pub mod Identity
pub mod Registration
pub mod Roles
mod Tests
use ai_document_analysis.Prelude.{
  ℕ, Bool, true, false, not, ◌&&◌, ◌||◌, Option, none, some, List, Text, codes, if◌then◌else◌,
}
use ai_document_analysis.Shared.Exceptions.{Exception, Result, ok, raise, raise_if, ◌>>=◌, ◌>>◌}
use ai_document_analysis.Shared.Jwt.{
  refresh, ExtraClaims, create_access_token, create_refresh_token, decode_token,
  remaining_ttl_seconds,
}
use ai_document_analysis.Shared.Jwt.Tokens.{Jose, Claims}
use ai_document_analysis.Shared.Oauth.{CurrentUser, require_admin}
use ai_document_analysis.Shared.Redis.{revoke, is_revoked}
use ai_document_analysis.Shared.Redis.Server.{Redis}
use ai_document_analysis.AuthService.Users.{
  Role, user, role_text, User, UserCreate, Passwords, get_by_id, get_by_email, exists_by_email,
  exists_by_username, create, update_role, list_all,
}

-- schemas/token.py
pub record TokenPair : Type 0 where
  pub access_token : Text
  pub refresh_token : Text

-- `payload["jti"]`, a KeyError where it is missing
abbrev pub claim : Option Text → Result Text
claim none = raise (Exception.unhandled (codes "KeyError"))
claim (some t) = ok t

-- `if not user or not …`: the user, if there is one for whom the test holds
abbrev pub present : Option User → (User → Bool) → Exception → Result User
present none test e = raise e
present (some u) test e = if test u then ok u else raise e

-- `register`: `id` is the new row's uuid4 and `salt` is drawn by the hash.
pub register : Passwords → Text → Text → UserCreate → List User → Result (User × List User)
register P id salt info users = do
  raise_if (← exists_by_email info.email users)
      (Exception.validation (codes "A user with this email already exists"))
  raise_if (← exists_by_username info.username users)
      (Exception.validation (codes "A user with this username already exists"))
  create
      (record {
        id = id;
        first_name = info.first_name;
        last_name = info.last_name;
        username = info.username;
        email = info.email;
        password_hash = P.hash salt info.password;
        is_active = true;
        role = user;
      })
      users

unfoldable pub set_role : Text → Role → List User → Result (User × List User)
set_role user_id role users = do
  found ← get_by_id user_id users
  u ← present found (λ _. true) (Exception.not_found (codes "User not found"))
  ok (update_role u role users)

-- `update_user_role`: the route, behind AdminUserDep.
pub update_user_role : CurrentUser → Text → Role → List User → Result (User × List User)
unfolding set_role
update_user_role caller user_id role users = do
  guarded ← require_admin caller
  set_role user_id role users

-- `list_users`: the route, behind AdminUserDep.
pub list_users : CurrentUser → List User → Result (List User)
unfolding list_all
list_users caller users = do guarded ← require_admin caller; ok (list_all users)

-- `me`: the route.
pub me : CurrentUser → List User → Result User
me caller users = do
  found ← get_by_id caller.id users
  present found (λ _. true) (Exception.unauthorized (codes "User no longer exists"))

module _ (J : Jose) (expire_minutes : ℕ) where
  -- `_issue_tokens`; the two `jti` are the fresh uuid4s of the tokens.
  pub issue_tokens : ℕ → Text → Text → User → TokenPair
  issue_tokens now jti jti' u = record {
    access_token =
        create_access_token J expire_minutes u.id
          (some (record { email = u.email; role = role_text u.role })) now jti;
    refresh_token = create_refresh_token J u.id now jti';
  }

  pub login : Passwords → ℕ → Text → Text → Text → Text → List User → Result TokenPair
  unfolding issue_tokens
  login P now jti jti' email password users = do
    found ← get_by_email email users
    u ←
        present found (λ v. P.verify password v.password_hash)
          (Exception.unauthorized (codes "Invalid email or password"))
    raise_if (not u.is_active) (Exception.unauthorized (codes "The account is disabled"))
    ok (issue_tokens now jti jti' u)

  module _ (R : Redis) where
    open R use {Server}

    -- `refresh`, with the server that it leaves
    pub refresh_tokens : ℕ → Text → Text → Text → List User → Server → Result (TokenPair × Server)
    unfolding issue_tokens
    refresh_tokens now jti jti' refresh_token users s = do
      payload ← decode_token J now refresh_token refresh
      used ← claim payload.jti
      raise_if (is_revoked R s now used)
          (Exception.unauthorized (codes "This refresh token has already been used or revoked"))
      sub ← claim payload.sub
      found ← get_by_id sub users
      u ← present found (λ v. v.is_active) (Exception.unauthorized (codes "Invalid refresh token"))
      ok (issue_tokens now jti jti' u, revoke R s now used (remaining_ttl_seconds payload now))

    pub logout : ℕ → Text → Server → Result Server
    logout now refresh_token s = do
      payload ← decode_token J now refresh_token refresh
      used ← claim payload.jti
      ok (revoke R s now used (remaining_ttl_seconds payload now))
