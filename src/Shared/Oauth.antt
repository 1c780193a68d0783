-- ===== src/Shared/Oauth.antt =====
-- shared/security/oauth.py: who the caller is, and the role guard. A UUID is its text; that `UUID`
-- accepts a subject is the argument `is_uuid`.
use ai_document_analysis.Prelude.{
  ℕ, Bool, true, false, not, Option, none, some, List, [], ◌∷◌, Text, ◌==◌, text-Eq, codes,
  is_empty, if◌then◌else◌,
}
use ai_document_analysis.Shared.Exceptions.{Exception, Result, ok, raise, raise_if, ◌>>=◌, ◌>>◌}
use ai_document_analysis.Shared.Jwt.{access, decode_token}
use ai_document_analysis.Shared.Jwt.Tokens.{Jose, Claims}

pub record CurrentUser : Type 0 where
  pub id : Text
  pub role : Option Text
  pub raw_claims : Claims

-- `if not sub: raise …`, then the `UUID(sub)` of the constructor call
unfoldable pub user_of_claims : (Text → Bool) → Claims → Result CurrentUser
user_of_claims is_uuid c = elim c.sub [
  | none ↦ raise (Exception.unauthorized (codes "Token missing subject claim"))
  | some sub ↦
      if is_empty sub
      then raise (Exception.unauthorized (codes "Token missing subject claim"))
      else if is_uuid sub
      then ok (record { id = sub; role = c.role; raw_claims = c })
      else raise (Exception.unhandled (codes "badly formed hexadecimal UUID string"))
]

module _ (J : Jose) (is_uuid : Text → Bool) where
  unfoldable pub resolve_user_from_token : ℕ → Text → Result CurrentUser
  unfolding decode_token user_of_claims
  resolve_user_from_token now token = do
    payload ← decode_token J now token access
    user_of_claims is_uuid payload

-- `current_user.role not in allowed_roles`, negated
abbrev pub role_in : Option Text → List Text → Bool
role_in role [] = false
role_in none (r ∷ roles) = false
role_in (some role) (r ∷ roles) = if r == role then true else role_in (some role) roles

-- `require_role(*allowed_roles)`
unfoldable pub require_role : List Text → CurrentUser → Result CurrentUser
require_role allowed_roles user = do
  raise_if (not (role_in user.role allowed_roles))
      (Exception.forbidden (codes "You do not have permission to perform this action"))
  ok user

-- `AdminUserDep`
unfoldable pub require_admin : CurrentUser → Result CurrentUser
unfolding require_role
require_admin user = require_role (codes "admin" ∷ []) user
