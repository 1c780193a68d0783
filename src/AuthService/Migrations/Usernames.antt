-- ===== src/AuthService/Migrations/Usernames.antt =====
-- That the migration of the users table ends with distinct usernames.
use ai_document_analysis.Prelude.{
  ℕ, ◌≡◌, ◌≢◌, refl, sym, inl, inr, true, false, some, List, [], ◌∷◌, ◌++◌, map, Text, text-Eq,
  text_eq_iff, All, until_separator, Bool-cases, arith,
}
use ai_document_analysis.AuthService.Migrations.{
  Before, After, upgrade_row, stands_in, id_prefix, tell_apart, is_distinct, upgrade,
}

abbrev pub HasNoUnderscore : After → Type 0
HasNoUnderscore u = All (λ c. c ≢ 95) u.username

no_separator : (d : ℕ) (a x y : Text) → All (λ c. c ≢ d) a → a ≢ x ++ d ∷ y
no_separator d [] [] y h e = cc
no_separator d [] (c ∷ x) y h e = cc
no_separator d (c ∷ a) [] y h e = h.0 cc
no_separator d (c ∷ a) (c' ∷ x) y h e = no_separator d a x y h.1 cc

abbrev Lacks : Text → List After → Type 0
Lacks name us = All (λ u. u.username ≢ name) us

Lacks-stands_in :
    (name : Text) (us : List After) → Lacks name us → stands_in name (map After.username us) ≡ false
Lacks-stands_in name [] h = refl
Lacks-stands_in name (u ∷ us) h =
    ground (arith, text_eq_iff u.username name, h.0, Lacks-stands_in name us h.1)

-- A name that was there before is not given again.
tell_apart-Lacks :
    (name : Text) (before : List Text) (us : List After)
    → stands_in name before ≡ true
    → All (λ c. c ≢ 95) name
    → Lacks name (tell_apart before us)
unfolding tell_apart
tell_apart-Lacks name before [] taken h = tt
tell_apart-Lacks name before (u ∷ us) taken h =
    let rest = tell_apart-Lacks name (u.username ∷ before) us (ground (arith, taken)) h in
    elim (Bool-cases (stands_in u.username before)) [
      | inl again ↦ rw again (λ e. no_separator 95 name u.username (id_prefix u) h (sym e), rest)
      | inr new ↦ rw new (λ e. cc (e, taken, new), rest)
    ]

-- Nor is a name with the prefix of an id that no later row has.
marked-Lacks :
    (name prefix : Text) (before : List Text) (us : List After)
    → All (λ c. c ≢ 95) name
    → All HasNoUnderscore us
    → stands_in prefix (map id_prefix us) ≡ false
    → Lacks (name ++ 95 ∷ prefix) (tell_apart before us)
unfolding tell_apart
marked-Lacks name prefix before [] h all other = tt
marked-Lacks name prefix before (u ∷ us) h all other =
    let apart : id_prefix u ≢ prefix =
      λ e. ground (arith, text_eq_iff (id_prefix u) prefix, e, other) in
    let later : stands_in prefix (map id_prefix us) ≡ false = ground (arith, other) in
    let rest = marked-Lacks name prefix (u.username ∷ before) us h all.1 later in
    elim (Bool-cases (stands_in u.username before)) [
      | inl again ↦
          rw again
            (λ e. apart (until_separator 95 u.username name (id_prefix u) prefix all.0 h e).1, rest)
      | inr new ↦ rw new (no_separator 95 u.username name prefix all.0, rest)
    ]

tell_apart-is_distinct :
    (before : List Text) (us : List After)
    → All HasNoUnderscore us
    → is_distinct (map id_prefix us) ≡ true
    → is_distinct (map After.username (tell_apart before us)) ≡ true
unfolding tell_apart
tell_apart-is_distinct before [] all ids = refl
tell_apart-is_distinct before (u ∷ us) all ids =
    let after = u.username ∷ before in
    let own : stands_in (id_prefix u) (map id_prefix us) ≡ false = ground (arith, ids) in
    let ids' : is_distinct (map id_prefix us) ≡ true = ground (arith, ids) in
    let rest = tell_apart-is_distinct after us all.1 ids' in
    let marked =
      Lacks-stands_in _ _ (marked-Lacks u.username (id_prefix u) after us all.0 all.1 own) in
    let self : stands_in u.username after ≡ true =
      ground (arith, text_eq_iff u.username u.username) in
    let taken = Lacks-stands_in _ _ (tell_apart-Lacks u.username after us self all.0) in
    elim (Bool-cases (stands_in u.username before)) [
      | inl again ↦ rw again (rw (marked, rest) refl)
      | inr new ↦ rw new (rw (taken, rest) refl)
    ]

-- Where no part of an address before its at sign has an underscore, and no two ids have the same
-- first eight characters, the usernames of the upgraded rows are distinct, so that their unique
-- index is created and the upgrade succeeds.
pub upgrade_succeeds :
    (rows : List Before)
    → All HasNoUnderscore (map upgrade_row rows)
    → is_distinct (map id_prefix (map upgrade_row rows)) ≡ true
    → upgrade rows ≡ some (tell_apart [] (map upgrade_row rows))
unfolding upgrade
upgrade_succeeds rows all ids = rw (tell_apart-is_distinct [] (map upgrade_row rows) all ids) refl
