-- ===== src/AuthService/Registration.antt =====
-- `register` and the rows of the users table.
use ai_document_analysis.Prelude.{
  ℕ, ◌≡◌, refl, Bool, true, false, ◌||◌, some, List, [], ◌∷◌, ◌++◌, Text, ◌==◌, text-Eq,
  text_eq_iff, filter, arith,
}
use ai_document_analysis.Shared.Exceptions.{Exception, Result, ok, raise, raise_if, ◌>>=◌, ◌>>◌}
use ai_document_analysis.AuthService.{register, login, issue_tokens}
use ai_document_analysis.AuthService.Identity.{login_active}
use ai_document_analysis.Shared.Jwt.Tokens.{Jose}
use ai_document_analysis.AuthService.Users.{
  user, User, UserCreate, Passwords, scalar_one_or_none, get_by_email, exists_by_email,
  exists_by_username, clashes, clashes_any, create, is_found,
}

-- No two rows share an id, an email address or a username.
abbrev pub IsUnique : List User → Type 0
IsUnique [] = Unit
IsUnique (u ∷ us) = (clashes_any u us ≡ false) × IsUnique us

-- The test for a clash is symmetric.
clashes_sym : (u v : User) → clashes u v ≡ clashes v u
clashes_sym u v = ground (
  arith,
  text_eq_iff u.id v.id,
  text_eq_iff v.id u.id,
  text_eq_iff u.email v.email,
  text_eq_iff v.email u.email,
  text_eq_iff u.username v.username,
  text_eq_iff v.username u.username,
)

clashes_any_snoc :
    (u v : User) (us : List User) → clashes_any u (us ++ v ∷ []) ≡ (clashes_any u us || clashes u v)
clashes_any_snoc u v [] = ground arith
clashes_any_snoc u v (w ∷ us) = ground (arith, clashes_any_snoc u v us)

snoc-IsUnique :
    (u : User) (us : List User) → IsUnique us → clashes_any u us ≡ false → IsUnique (us ++ u ∷ [])
snoc-IsUnique u [] h new = (refl, tt)
snoc-IsUnique u (v ∷ us) h new = (
  ground (arith, h.0, clashes_any_snoc v u us, clashes_sym u v),
  snoc-IsUnique u us h.1 (ground arith),
)

scalar_none :
    (us : List User) → (do found ← scalar_one_or_none us; ok (is_found found)) ≡ ok false → us ≡ []
unfolding scalar_one_or_none
scalar_none [] h = refl
scalar_none (u ∷ []) h = grind arith
scalar_none (u ∷ v ∷ us) h = grind arith

-- The row that `register` makes.
abbrev pub row : Passwords → Text → Text → UserCreate → User
row P id salt info = record {
  id = id;
  first_name = info.first_name;
  last_name = info.last_name;
  username = info.username;
  email = info.email;
  password_hash = P.hash salt info.password;
  is_active = true;
  role = user;
}

create-fresh :
    (u v : User) (us us' : List User)
    → create u us ≡ ok (v, us')
    → (v ≡ u) × (us' ≡ us ++ u ∷ []) × (clashes_any u us ≡ false)
unfolding create
create-fresh u v us us' h = grind arith

-- A check that says no, and then the rest.
passes :
    {A : Type 0} (answer : Result Bool) (e : Exception) (rest : Result A) (a : A)
    → (do raise_if (← answer) e; rest) ≡ ok a
    → (answer ≡ ok false) × (rest ≡ ok a)
passes (ok true) e rest a h = grind arith
passes (ok false) e rest a h = (refl, h)
passes (raise e') e rest a h = grind arith

register-row :
    (P : Passwords) (id salt : Text) (info : UserCreate) (users users' : List User) (u : User)
    → register P id salt info users ≡ ok (u, users')
    → (exists_by_email info.email users ≡ ok false)
      × (u ≡ row P id salt info)
      × (users' ≡ users ++ row P id salt info ∷ [])
      × (clashes_any (row P id salt info) users ≡ false)
unfolding register
register-row P id salt info users users' u h =
    let (email_free, h') = passes (exists_by_email info.email users) _ _ _ h in
    let (name_free, h'') = passes (exists_by_username info.username users) _ _ _ h' in
    let (same, table, fresh) = create-fresh (row P id salt info) u users users' h'' in
    (email_free, same, table, fresh)

filter-snoc :
    (test : User → Bool) (us : List User) (u : User)
    → filter test us ≡ []
    → test u ≡ true
    → filter test (us ++ u ∷ []) ≡ u ∷ []
filter-snoc test [] u h t = ground (arith, t)
filter-snoc test (v ∷ us) u h t = ground (arith, filter-snoc test us u, t)

get_by_email-register :
    (P : Passwords) (id salt : Text) (info : UserCreate) (users users' : List User) (u : User)
    → register P id salt info users ≡ ok (u, users')
    → get_by_email info.email users' ≡ ok (some u)
unfolding get_by_email exists_by_email
get_by_email-register P id salt info users users' u h =
    let (email_free, same, table, fresh) = register-row P id salt info users users' u h in
    let matching = scalar_none (filter (λ v. v.email == info.email) users) email_free in
    let own = (text_eq_iff info.email info.email).1 refl in
    rw
      (
        same,
        table,
        filter-snoc (λ v. v.email == info.email) users (row P id salt info) matching own,
      )
      refl

-- A registration that succeeds gives an active account with the role `user`, keeps the ids, email
-- addresses and usernames of the table apart, and a login with the email address and the
-- password that it was made with returns tokens for that account.
pub login-register :
    (J : Jose) (expire_minutes : ℕ) (P : Passwords) (id salt : Text) (info : UserCreate)
    (users users' : List User) (u : User) (now : ℕ) (a b : Text)
    → IsUnique users
    → register P id salt info users ≡ ok (u, users')
    → (u.role ≡ user)
      × IsUnique users'
      × (login J expire_minutes P now a b info.email info.password users'
          ≡ ok (issue_tokens J expire_minutes now a b u))
login-register J m P id salt info users users' u now a b h e =
    let (email_free, same, table, fresh) = register-row P id salt info users users' u e in
    let found = get_by_email-register P id salt info users users' u e in
    (
      rw same refl,
      rw table (snoc-IsUnique (row P id salt info) users h fresh),
      login_active J m P now a b info.email info.password users' u found
          (rw same (P.verify-hash salt info.password)) (rw same refl),
    )
