-- ===== src/AuthService/Roles.antt =====
-- `set_role` and its route: who may change a role, and what changes.
use ai_document_analysis.Prelude.{
  ◌≡◌, refl, sym, ap, ◌∙◌, inl, inr, true, false, some, List, [], ◌∷◌, map, Text, ◌==◌, text-Eq,
  text_eq_iff, codes, filter, Bool-cases, arith, if◌then◌else◌,
}
use ai_document_analysis.Shared.Exceptions.{Exception, ok, raise, ◌>>=◌}
use ai_document_analysis.Shared.Oauth.{CurrentUser, role_in, require_admin, require_role}
use ai_document_analysis.AuthService.{present, set_role, update_user_role}
use ai_document_analysis.AuthService.Users.{Role, User, scalar_one_or_none, get_by_id, update_role}

abbrev rows_of : Text → List User → List User
rows_of id users = filter (λ v. v.id == id) users

abbrev with_role : Role → User → User
with_role role u = record u { role = role }

abbrev rows_with : Text → Role → List User → List User
rows_with id role users = map (λ v. if v.id == id then with_role role v else v) users

rows_of-rows_with :
    (id : Text) (role : Role) (users : List User)
    → rows_of id (rows_with id role users) ≡ map (with_role role) (rows_of id users)
rows_of-rows_with id role [] = refl
rows_of-rows_with id role (v ∷ users) = ground (arith, rows_of-rows_with id role users)

rows_of-rows_with_other :
    (id j : Text) (role : Role) (users : List User)
    → (id == j) ≡ false
    → rows_of j (rows_with id role users) ≡ rows_of j users
rows_of-rows_with_other id j role [] other = refl
rows_of-rows_with_other id j role (v ∷ users) other = ground (
  arith,
  rows_of-rows_with_other id j role users other,
  text_eq_iff id j,
  text_eq_iff v.id id,
  text_eq_iff v.id j,
)

one_present :
    (us : List User) (e : Exception) (role : Role) (users : List User) (answer : User × List User)
    → (do
      found ← scalar_one_or_none us
      u ← present found (λ v. true) e
      ok (update_role u role users))
      ≡ ok answer
    → (u : User) × (us ≡ u ∷ []) × (answer ≡ update_role u role users)
unfolding scalar_one_or_none
one_present [] e role users answer h = grind arith
one_present (u ∷ []) e role users answer h = (u, refl, ground arith)
one_present (u ∷ v ∷ us) e role users answer h = grind arith

rows_of-id : (id : Text) (users us : List User) (u : User) → rows_of id users ≡ u ∷ us → u.id ≡ id
rows_of-id id [] us u h = grind arith
rows_of-id id (v ∷ users) us u h = elim (Bool-cases (v.id == id)) [
  | inl same ↦ grind (arith, text_eq_iff v.id id)
  | inr other ↦ rows_of-id id users us u (ground (arith, h, other))
]

set_role-found :
    (id : Text) (role : Role) (users users' : List User) (u : User)
    → set_role id role users ≡ ok (u, users')
    → (v : User) × (rows_of id users ≡ v ∷ []) × ((u, users') ≡ update_role v role users)
unfolding set_role get_by_id
set_role-found id role users users' u h = one_present (rows_of id users) _ role users (u, users') h

abbrev pub no_permission : Exception
no_permission = Exception.forbidden (codes "You do not have permission to perform this action")

guarded :
    (caller : CurrentUser) (id : Text) (role : Role) (users : List User)
    → update_user_role caller id role users ≡ (
        if role_in caller.role (codes "admin" ∷ [])
        then set_role id role users
        else raise no_permission)
unfolding update_user_role require_admin require_role
guarded caller id role users = ground arith

get_by_id-rows_of :
    (j : Text) (users users' : List User)
    → rows_of j users' ≡ rows_of j users
    → get_by_id j users' ≡ get_by_id j users
unfolding get_by_id
get_by_id-rows_of j users users' e = ap scalar_one_or_none e

get_by_id-only :
    (id : Text) (users : List User) (u : User)
    → rows_of id users ≡ u ∷ []
    → get_by_id id users ≡ ok (some u)
unfolding get_by_id scalar_one_or_none
get_by_id-only id users u e = rw e refl

admitted :
    (caller : CurrentUser) (id : Text) (role : Role) (users users' : List User) (u : User)
    → (if role_in caller.role (codes "admin" ∷ [])
        then set_role id role users
        else raise no_permission)
      ≡ ok (u, users')
    → (role_in caller.role (codes "admin" ∷ []) ≡ true) × (set_role id role users ≡ ok (u, users'))
admitted caller id role users users' u h = grind arith

changed_lem :
    (id : Text) (role : Role) (users users' : List User) (u before : User)
    → before.id ≡ id
    → (u, users') ≡ update_role before role users
    → (u ≡ with_role role before) × (users' ≡ rows_with id role users)
unfolding update_role
changed_lem id role users users' u before named e =
    (ap (λ p. p.0) e, ap (λ p. p.1) e ∙ rw named refl)

-- A caller who changes a role is an administrator. Afterwards the user of that id, who was there
-- before, has the new role and is otherwise as before, and every other id finds what it found
-- before.
pub update_user_role_lem :
    (caller : CurrentUser) (id : Text) (role : Role) (users users' : List User) (u : User)
    → update_user_role caller id role users ≡ ok (u, users')
    → (before : User) × (role_in caller.role (codes "admin" ∷ []) ≡ true)
      × (get_by_id id users ≡ ok (some before))
      × (u ≡ record before { role = role })
      × (get_by_id id users' ≡ ok (some u))
      × ((j : Text) → (id == j) ≡ false → get_by_id j users' ≡ get_by_id j users)
update_user_role_lem caller id role users users' u h =
    let (admin, changed) =
      admitted caller id role users users' u (sym (guarded caller id role users) ∙ h) in
    let (before, only, same) = set_role-found id role users users' u changed in
    let named = rows_of-id id users [] before only in
    let (row, table) = changed_lem id role users users' u before named same in
    (
      before,
      admin,
      get_by_id-only id users before only,
      row,
      get_by_id-only id users' u
          (rw (table, row) (rows_of-rows_with id role users ∙ ap (map (with_role role)) only)),
      λ j other.
          get_by_id-rows_of j users users'
            (rw table (rows_of-rows_with_other id j role users other)),
    )
