-- ===== src/AuthService/Migrations/Tests.antt =====
-- A name of three words, and two accounts with one name before the at sign.
use ai_document_analysis.Prelude.{
  ◌≡◌, refl, false, some, [], ◌∷◌, map, Text, text_eq, codes, All-excludes, arith,
}
use ai_document_analysis.AuthService.Migrations.{
  Before, After, upgrade_row, tell_apart, upgrade, split_first, first_name_of, last_name_of,
  full_name_of,
}
use ai_document_analysis.AuthService.Migrations.Usernames.{upgrade_succeeds}
use ai_document_analysis.AuthService.Migrations.Names.{full_name_of-upgraded}

full_name_of-upgraded_example :
    (full_name_of (first_name_of (codes "Ada King Noel")) (last_name_of (codes "Ada King Noel"))
      ≡ codes "Ada King Noel")
    × (full_name_of (first_name_of (codes "Ada")) (last_name_of (codes "Ada")) ≡ codes "Ada User")
    × ((other : Text) → first_name_of other ≡ split_first 32 other)
full_name_of-upgraded_example =
    full_name_of-upgraded (codes "Ada") (codes "King Noel") (λ e. omega arith)
      (All-excludes 32 (codes "Ada") refl) (λ e. omega arith) (λ e. omega arith)

abbrev bob : Before
bob = record {
  id = codes "11111111-1111";
  full_name = codes "Bob";
  email = codes "bob@a";
  is_superuser = false;
}

abbrev other_bob : Before
other_bob = record {
  id = codes "22222222-2222";
  full_name = codes "Bob";
  email = codes "bob@b";
  is_superuser = false;
}

two_names_told_apart :
    upgrade (bob ∷ other_bob ∷ []) ≡ some (tell_apart [] (map upgrade_row (bob ∷ other_bob ∷ [])))
unfolding text_eq
two_names_told_apart =
    upgrade_succeeds (bob ∷ other_bob ∷ [])
      (All-excludes 95 (codes "bob") refl, (All-excludes 95 (codes "bob") refl, tt)) refl

second_bob :
    map After.username (tell_apart [] (map upgrade_row (bob ∷ other_bob ∷ [])))
    ≡ codes "bob" ∷ codes "bob_22222222" ∷ []
unfolding tell_apart text_eq
second_bob = refl
