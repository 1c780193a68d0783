-- ===== src/Shared/Settings.antt =====
-- shared/config/settings.py: the two properties of `Settings`, and the URL that the alembic/env.py
-- of auth-service and of document-service make of the second one.
pub mod Origins
mod Tests
use ai_document_analysis.Prelude.{
  ℕ, List, [], ◌∷◌, ◌++◌, Text, codes, strip, nat_eq, is_empty, if◌then◌else◌,
}
use ai_document_analysis.Prelude.Replace.{replace}

-- The settings that the properties read; the port is an `int`, whose `str` is an argument.
pub record Settings : Type 0 where
  pub postgres_host : Text
  pub postgres_port : ℕ
  pub postgres_db : Text
  pub postgres_user : Text
  pub postgres_password : Text
  pub cors_origins : Text

-- A part of `text.split(c)` with the parts after it: `c` begins a new part, and any other
-- character stands at the beginning of the part.
abbrev pub extend : ℕ → List Text → List Text
extend c [] = (c ∷ []) ∷ []
extend c (part ∷ parts) = (c ∷ part) ∷ parts

-- `text.split(d)`, with a separator of one character
unfoldable pub split_at : ℕ → Text → List Text
split_at d [] = [] ∷ []
split_at d (c ∷ t) = let rest = split_at d t in if nat_eq c d then [] ∷ rest else extend c rest

-- The comprehension of `cors_origins_list`.
unfoldable pub stripped_parts : List Text → List Text
stripped_parts [] = []
stripped_parts (origin ∷ origins) =
    let rest = stripped_parts origins in
    if is_empty (strip origin) then rest else strip origin ∷ rest

pub cors_origins_list : Settings → List Text
unfolding split_at stripped_parts
cors_origins_list s = stripped_parts (split_at 44 s.cors_origins)

module _ (str : ℕ → Text) where
  -- `database_url`, after its scheme
  abbrev pub database_address : Settings → Text
  database_address s =
      s.postgres_user
      ++ (codes ":"
          ++ (s.postgres_password
              ++ (codes "@"
                  ++ (s.postgres_host
                      ++ (codes ":" ++ (str s.postgres_port ++ (codes "/" ++ s.postgres_db)))))))

  abbrev pub database_url : Settings → Text
  database_url s = codes "postgresql+asyncpg://" ++ database_address s

  -- `settings.database_url.replace("+asyncpg", "")`
  unfoldable pub migration_url : Settings → Text
  unfolding replace
  migration_url s = replace (codes "+asyncpg") [] (database_url s)
