-- ===== src/Shared/Settings/Tests.antt =====
-- Two origins, of which one is written between spaces; and a database on another host.
use ai_document_analysis.Prelude.{
  ℕ, ◌≡◌, refl, inl, [], ◌∷◌, Text, codes, strip, contains, All-excludes, arith,
}
use ai_document_analysis.Shared.Settings.{Settings, cors_origins_list, migration_url}
use ai_document_analysis.Shared.Settings.Origins.{
  IsOrigin, cors_origins_list-join_commas, migration_url_lem,
}

abbrev settings : Settings
settings = record {
  postgres_host = codes "db";
  postgres_port = 5432;
  postgres_db = codes "docs";
  postgres_user = codes "app";
  postgres_password = codes "secret";
  cors_origins = codes "a.io,b.io";
}

spaces_stripped :
    cors_origins_list (record settings { cors_origins = codes " a.io ,, b.io" })
    ≡ codes "a.io" ∷ codes "b.io" ∷ []
unfolding cors_origins_list strip
spaces_stripped = refl

a-IsOrigin : IsOrigin (codes "a.io")
unfolding strip
a-IsOrigin = record {
  shown = refl;
  visible = (
    inl (omega arith, omega arith),
    (
      inl (omega arith, omega arith),
      (inl (omega arith, omega arith), (inl (omega arith, omega arith), tt)),
    ),
  );
  no_comma = All-excludes 44 (codes "a.io") refl;
}

b-IsOrigin : IsOrigin (codes "b.io")
b-IsOrigin = record {
  shown = refl;
  visible = (inl (omega arith, omega arith), a-IsOrigin.visible.1);
  no_comma = All-excludes 44 (codes "b.io") refl;
}

two_origins_allowed : cors_origins_list settings ≡ codes "a.io" ∷ codes "b.io" ∷ []
two_origins_allowed =
    cors_origins_list-join_commas settings (codes "a.io" ∷ codes "b.io" ∷ [])
      (a-IsOrigin, (b-IsOrigin, tt)) refl

abbrev port : ℕ → Text
port n = codes "5432"

synchronous_url : migration_url port settings ≡ codes "postgresql://app:secret@db:5432/docs"
unfolding contains
synchronous_url = migration_url_lem port settings refl
