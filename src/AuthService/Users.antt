-- ===== src/AuthService/Users.antt =====
-- models/user.py, schemas/user.py and the repositories: the users table is the list of its rows, and
-- a `select` is the filter that its `where` clause says. passlib is the parameter `Passwords`.
use ai_document_analysis.Prelude.{
  Bool, true, false, ◌||◌, ◌≡◌, Option, none, some, List, [], ◌∷◌, ◌++◌, map, Text, ◌==◌, text-Eq,
  codes, filter, if◌then◌else◌,
}
use ai_document_analysis.Shared.Exceptions.{Exception, Result, ok, raise, ◌>>=◌}

pub data Role : Type 0 where
  user admin : Role

-- The role as a string enumeration's value.
abbrev pub role_text : Role → Text
role_text user = codes "user"
role_text admin = codes "admin"

pub record User : Type 0 where
  pub id : Text
  pub first_name : Text
  pub last_name : Text
  pub username : Text
  pub email : Text
  pub password_hash : Text
  pub is_active : Bool
  pub role : Role

pub record UserCreate : Type 0 where
  pub first_name : Text
  pub last_name : Text
  pub username : Text
  pub email : Text
  pub password : Text

-- shared/security/hashing.py over passlib, which documents that a password matches its own hash.
pub record Passwords : Type 0 where
  pub hash : Text → Text → Text
  pub verify : Text → Text → Bool
  pub verify-hash : (salt p : Text) → verify p (hash salt p) ≡ true

-- `result.scalar_one_or_none()`
unfoldable pub scalar_one_or_none : List User → Result (Option User)
scalar_one_or_none [] = ok none
scalar_one_or_none (u ∷ []) = ok (some u)
scalar_one_or_none (u ∷ v ∷ us) = raise (Exception.unhandled (codes "MultipleResultsFound"))

unfoldable pub get_by_id : Text → List User → Result (Option User)
unfolding scalar_one_or_none
get_by_id id users = scalar_one_or_none (filter (λ u. u.id == id) users)

unfoldable pub get_by_email : Text → List User → Result (Option User)
unfolding scalar_one_or_none
get_by_email email users = scalar_one_or_none (filter (λ u. u.email == email) users)

unfoldable pub get_by_username : Text → List User → Result (Option User)
unfolding scalar_one_or_none
get_by_username username users = scalar_one_or_none (filter (λ u. u.username == username) users)

-- `… is not None`
abbrev pub is_found : Option User → Bool
is_found none = false
is_found (some u) = true

unfoldable pub exists_by_email : Text → List User → Result Bool
unfolding get_by_email
exists_by_email email users = do found ← get_by_email email users; ok (is_found found)

unfoldable pub exists_by_username : Text → List User → Result Bool
unfolding get_by_username
exists_by_username username users = do found ← get_by_username username users; ok (is_found found)

-- Two rows that the unique columns of `users` do not allow together.
abbrev pub clashes : User → User → Bool
clashes u v = u.id == v.id || (u.email == v.email || u.username == v.username)

abbrev pub clashes_any : User → List User → Bool
clashes_any u [] = false
clashes_any u (v ∷ us) = clashes u v || clashes_any u us

-- `create`: the commit fails where a unique column is violated.
unfoldable pub create : User → List User → Result (User × List User)
create u users =
    if clashes_any u users
    then raise (Exception.unhandled (codes "IntegrityError"))
    else ok (u, users ++ u ∷ [])

-- `update_role`: the row of the user is written back.
unfoldable pub update_role : User → Role → List User → User × List User
update_role u role users = (
  record u { role = role },
  map (λ v. if v.id == u.id then record v { role = role } else v) users,
)

unfoldable pub list_all : List User → List User
list_all users = users
