-- ===== src/AuthService/Migrations.antt =====
-- auth-service/alembic/versions/002_updated_user_table.py: what its two statements do with the rows
-- of the users table. The functions of SQL are those of PostgreSQL's documentation.
pub mod Names
pub mod Usernames
mod Tests
use ai_document_analysis.Prelude.{
  ℕ, Bool, true, false, not, ◌&&◌, ◌||◌, Option, none, some, List, [], ◌∷◌, ◌++◌, map, Text, ◌==◌,
  text-Eq, codes, nat_eq, take, if◌then◌else◌,
}
use mathlib.Core.List.{reverse}
use ai_document_analysis.AuthService.Users.{Role}

-- The columns of a row that the migration reads, and those that it writes.
pub record Before : Type 0 where
  pub id : Text
  pub full_name : Text
  pub email : Text
  pub is_superuser : Bool

pub record After : Type 0 where
  pub id : Text
  pub first_name : Text
  pub last_name : Text
  pub email : Text
  pub username : Text
  pub role : Role

-- `split_part(t, c, 1)`
abbrev pub split_first : ℕ → Text → Text
split_first d [] = []
split_first d (c ∷ t) = let rest = split_first d t in if nat_eq c d then [] else c ∷ rest

-- `substring(t from position(c in t) + 1)` where the position is not 0; none where it is.
abbrev pub after_first : ℕ → Text → Option Text
after_first d [] = none
after_first d (c ∷ t) = let rest = after_first d t in if nat_eq c d then some t else rest

abbrev pub ltrim : Text → Text
ltrim [] = []
ltrim (c ∷ t) = let rest = ltrim t in if nat_eq c 32 then rest else c ∷ t

-- `trim(t)`, which removes spaces only
abbrev pub trim : Text → Text
trim t = reverse (ltrim (reverse (ltrim t)))

-- `COALESCE(NULLIF(t, ' '), 'Unknown')`
abbrev pub known_or : Text → Text
known_or t = if t == codes " " then codes "Unknown" else t

abbrev pub first_name_of : Text → Text
first_name_of full_name = known_or (split_first 32 full_name)

abbrev pub last_name_of : Text → Text
last_name_of full_name = elim (after_first 32 full_name) [
  | none ↦ codes "User"
  | some rest ↦ trim rest
]

-- `downgrade`: `trim(first_name || ' ' || last_name)`
abbrev pub full_name_of : Text → Text → Text
full_name_of first_name last_name = trim (first_name ++ (codes " " ++ last_name))

-- The row before the usernames are told apart; the role is the default of its new column.
abbrev pub upgrade_row : Before → After
upgrade_row row = record {
  id = row.id;
  first_name = first_name_of row.full_name;
  last_name = last_name_of row.full_name;
  email = row.email;
  username = split_first 64 row.email;
  role = Role.user;
}

abbrev pub stands_in : Text → List Text → Bool
stands_in t [] = false
stands_in t (s ∷ texts) = if s == t then true else stands_in t texts

-- `substr(u.id::text,1,8)`
abbrev pub id_prefix : After → Text
id_prefix u = take 8 u.id

-- The last UPDATE, over the rows in the order of `created_at`, after rows with the usernames
-- `before`: `rn > 1` where the username is one of these.
pub tell_apart : List Text → List After → List After
tell_apart before [] = []
tell_apart before (u ∷ us) =
    let rest = tell_apart (u.username ∷ before) us in
    (if stands_in u.username before
      then record u { username = u.username ++ (codes "_" ++ id_prefix u) }
      else u)
    ∷ rest

abbrev pub is_distinct : List Text → Bool
is_distinct [] = true
is_distinct (t ∷ texts) = not (stands_in t texts) && is_distinct texts

-- `upgrade`: none where the unique index on the usernames cannot be created.
pub upgrade : List Before → Option (List After)
unfolding tell_apart
upgrade rows =
    let us = tell_apart [] (map upgrade_row rows) in
    if is_distinct (map After.username us) then some us else none
