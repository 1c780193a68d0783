-- ===== src/AuthService/Identity.antt =====
-- What the tokens of `_issue_tokens` say: the access token names its user to every service, and
-- neither of the two tokens passes for the other.
use ai_document_analysis.Prelude.{
  ℕ, ◌+◌, ◌*◌, ◌/◌, ◌<◌, ◌≡◌, refl, Bool, true, false, none, some, List, ◌++◌, Text, text_eq,
  text_eq_iff, text-Eq, ◌==◌, codes, is_empty, arith,
}
use ai_document_analysis.Shared.Exceptions.{Exception, ok, raise}
use ai_document_analysis.Shared.Jwt.{
  access, refresh, decode_token, payload_of, create_access_token, create_refresh_token,
}
use ai_document_analysis.Shared.Jwt.Tokens.{Jose, Claims}
use ai_document_analysis.Shared.Oauth.{CurrentUser, resolve_user_from_token}
use ai_document_analysis.AuthService.{TokenPair, login, issue_tokens}
use ai_document_analysis.AuthService.Users.{User, Passwords, role_text, get_by_email}

abbrev pub expected : Text → Exception
expected type = Exception.unauthorized (codes "Expected a " ++ (type ++ codes " token"))

module _ (J : Jose) (expire_minutes : ℕ) where
  open J use {encode, decode_live}

  pub login_active :
      (P : Passwords) (now : ℕ) (a b email password : Text) (users : List User) (u : User)
      → get_by_email email users ≡ ok (some u)
      → P.verify password u.password_hash ≡ true
      → u.is_active ≡ true
      → login J expire_minutes P now a b email password users
        ≡ ok (issue_tokens J expire_minutes now a b u)
  unfolding login
  login_active P now a b email password users u found matches active =
      rw (found, matches, active) refl

  decode_token_wrong :
      (c : Claims) (exp t : ℕ) (type type' : Text)
      → c.exp ≡ some exp
      → c.type ≡ some type
      → t < exp * 1000
      → (type == type') ≡ false
      → decode_token J t (encode c) type' ≡ raise (expected type')
  unfolding decode_token
  decode_token_wrong c exp t type type' e typed live other =
      ground (arith, decode_live c exp t e live, typed, other)

  resolve_live :
      (is_uuid : Text → Bool) (t : ℕ) (sub : Text) (exp : ℕ) (c : Claims)
      → c.exp ≡ some exp
      → c.type ≡ some access
      → c.sub ≡ some sub
      → t < exp * 1000
      → is_empty sub ≡ false
      → is_uuid sub ≡ true
      → resolve_user_from_token J is_uuid t (encode c)
        ≡ ok (record { id = sub; role = c.role; raw_claims = c })
  unfolding resolve_user_from_token
  resolve_live is_uuid t sub exp c e typed owned live named uuid =
      ground
        (arith, decode_live c exp t e live, typed, text_eq_iff access access, owned, named, uuid)

  resolve_wrong :
      (is_uuid : Text → Bool) (t exp : ℕ) (c : Claims)
      → c.exp ≡ some exp
      → c.type ≡ some refresh
      → t < exp * 1000
      → resolve_user_from_token J is_uuid t (encode c) ≡ raise (expected access)
  unfolding resolve_user_from_token text_eq
  resolve_wrong is_uuid t exp c e typed live =
      rw (decode_token_wrong c exp t refresh access e typed live refl) refl

  -- A login with the right password of an active account, whose id is a UUID, gives a pair of
  -- tokens. While both are alive the access token resolves to the user's id and role; the refresh
  -- token is refused where an access token is expected, and the access token where a refresh token
  -- is.
  pub login-resolves :
      (is_uuid : Text → Bool) (P : Passwords) (now t : ℕ) (a b email password : Text)
      (users : List User) (u : User)
      → get_by_email email users ≡ ok (some u)
      → P.verify password u.password_hash ≡ true
      → u.is_active ≡ true
      → is_empty u.id ≡ false
      → is_uuid u.id ≡ true
      → t < (now / 1000 + expire_minutes * 60) * 1000
      → t < (now / 1000 + 604800) * 1000
      → (pair : TokenPair) × (caller : CurrentUser) × (login J expire_minutes P now a b email
            password users
          ≡ ok pair)
        × (resolve_user_from_token J is_uuid t pair.access_token ≡ ok caller)
        × (caller.id ≡ u.id)
        × (caller.role ≡ some (role_text u.role))
        × (resolve_user_from_token J is_uuid t pair.refresh_token ≡ raise (expected access))
        × (decode_token J t pair.access_token refresh ≡ raise (expected refresh))
  unfolding issue_tokens payload_of resolve_user_from_token create_access_token create_refresh_token
      text_eq
  login-resolves is_uuid P now t a b email password users u found matches active named uuid short
        long =
      let extra = some (record { email = u.email; role = role_text u.role }) in
      let claims = payload_of u.id (expire_minutes * 60) access extra now a in
      (
        _,
        record { id = u.id; role = some (role_text u.role); raw_claims = claims },
        login_active P now a b email password users u found matches active,
        resolve_live is_uuid t u.id (now / 1000 + expire_minutes * 60) claims refl refl refl short
            named uuid,
        refl,
        refl,
        resolve_wrong is_uuid t (now / 1000 + 604800) (payload_of u.id 604800 refresh none now b)
            refl refl long,
        decode_token_wrong claims (now / 1000 + expire_minutes * 60) t access refresh refl refl
            short refl,
      )
