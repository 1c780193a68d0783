-- ===== src/AuthService/Migrations/Names.antt =====
-- The names that the migration of the users table splits, and what the way back makes of them.
use mathlib.Core.List.{reverse, reverse-append, reverse-reverse, append_assoc}
use ai_document_analysis.Prelude.{
  ◌≡◌, ◌≢◌, refl, sym, ap, ◌∙◌, inl, inr, false, none, some, [], ◌∷◌, ◌++◌, Text, text_eq, codes,
  nat_eq, All, Bool-cases, arith,
}
use ai_document_analysis.AuthService.Migrations.{
  split_first, after_first, ltrim, trim, known_or, first_name_of, last_name_of, full_name_of,
}

-- A text that begins with a character other than a space.
abbrev pub Starts : Text → Type 0
Starts [] = ⊥
Starts (c ∷ t) = c ≢ 32

abbrev pub HasNoSpace : Text → Type 0
HasNoSpace t = All (λ c. c ≢ 32) t

ltrim-Starts : (t x : Text) → Starts t → ltrim (t ++ x) ≡ t ++ x
ltrim-Starts [] x h = absurd h
ltrim-Starts (c ∷ t) x h = let other : nat_eq c 32 ≡ false = ground (arith, h) in rw other refl

-- A text with no space at either end is not trimmed.
trim-Starts :
    (a b : Text)
    → Starts a
    → Starts (reverse b)
    → trim (a ++ (codes " " ++ b)) ≡ a ++ (codes " " ++ b)
trim-Starts a b ha hb =
    let whole = a ++ (codes " " ++ b) in
    let backwards : reverse whole ≡ reverse b ++ (codes " " ++ reverse a) =
      reverse-append a (codes " " ++ b)
      ∙ ap (λ t. t ++ reverse a) (reverse-append (codes " ") b)
      ∙ append_assoc (reverse b) (codes " ") (reverse a) in
    ap (λ t. reverse (ltrim (reverse t))) (ltrim-Starts a (codes " " ++ b) ha)
    ∙ ap (λ t. reverse (ltrim t)) backwards
    ∙ ap reverse (ltrim-Starts (reverse b) (codes " " ++ reverse a) hb)
    ∙ ap reverse (sym backwards)
    ∙ reverse-reverse whole

split_first-append : (a b : Text) → HasNoSpace a → split_first 32 (a ++ 32 ∷ b) ≡ a
split_first-append [] b h = refl
split_first-append (c ∷ a) b h =
    let other : nat_eq c 32 ≡ false = ground (arith, h.0) in
    rw other (ap (λ t. c ∷ t) (split_first-append a b h.1))

after_first-append : (a b : Text) → HasNoSpace a → after_first 32 (a ++ 32 ∷ b) ≡ some b
after_first-append [] b h = refl
after_first-append (c ∷ a) b h =
    let other : nat_eq c 32 ≡ false = ground (arith, h.0) in rw other (after_first-append a b h.1)

split_first_whole : (a : Text) → HasNoSpace a → split_first 32 a ≡ a
split_first_whole [] h = refl
split_first_whole (c ∷ a) h =
    let other : nat_eq c 32 ≡ false = ground (arith, h.0) in
    rw other (ap (λ t. c ∷ t) (split_first_whole a h.1))

after_first-none : (a : Text) → HasNoSpace a → after_first 32 a ≡ none
after_first-none [] h = refl
after_first-none (c ∷ a) h =
    let other : nat_eq c 32 ≡ false = ground (arith, h.0) in rw other (after_first-none a h.1)

split_first-HasNoSpace : (t : Text) → HasNoSpace (split_first 32 t)
split_first-HasNoSpace [] = tt
split_first-HasNoSpace (c ∷ t) = elim (Bool-cases (nat_eq c 32)) [
  | inl space ↦ rw space tt
  | inr other ↦ rw other (λ e. ground (arith, other, e), split_first-HasNoSpace t)
]

known_or_word : (t : Text) → HasNoSpace t → known_or t ≡ t
unfolding text_eq
known_or_word [] h = refl
known_or_word (c ∷ t) h = let other : nat_eq c 32 ≡ false = ground (arith, h.0) in rw other refl

-- The first name is the text before the first space, whatever the full name is: the test for an
-- empty one compares with a space, which never stands there, and no name becomes Unknown by it.
first_name_of-split_first : (full_name : Text) → first_name_of full_name ≡ split_first 32 full_name
first_name_of-split_first full_name =
    known_or_word (split_first 32 full_name) (split_first-HasNoSpace full_name)

ltrim_self : (t : Text) → Starts t → ltrim t ≡ t
ltrim_self [] h = absurd h
ltrim_self (c ∷ t) h = let other : nat_eq c 32 ≡ false = ground (arith, h) in rw other refl

trim_self : (b : Text) → Starts b → Starts (reverse b) → trim b ≡ b
trim_self b hb he =
    ap (λ t. reverse (ltrim (reverse t))) (ltrim_self b hb)
    ∙ ap reverse (ltrim_self (reverse b) he)
    ∙ reverse-reverse b

-- A full name of a word and, after one space, a rest with no space at its ends is the same after
-- the upgrade and the downgrade of the table. A name that is one word comes back with User after
-- it. Every first name is the text before the first space, and so is empty where that is; none
-- becomes Unknown.
pub full_name_of-upgraded :
    (word rest : Text)
    → Starts word
    → HasNoSpace word
    → Starts rest
    → Starts (reverse rest)
    → let full_name = word ++ (codes " " ++ rest) in
      (full_name_of (first_name_of full_name) (last_name_of full_name) ≡ full_name)
      × (full_name_of (first_name_of word) (last_name_of word) ≡ word ++ codes " User")
      × ((other : Text) → first_name_of other ≡ split_first 32 other)
full_name_of-upgraded word rest hw none_in hr he =
    let full_name = word ++ (codes " " ++ rest) in
    let first : first_name_of full_name ≡ word =
      first_name_of-split_first full_name ∙ split_first-append word rest none_in in
    let last : last_name_of full_name ≡ rest =
      rw (after_first-append word rest none_in, last_name_of) (trim_self rest hr he) in
    let first' : first_name_of word ≡ word =
      first_name_of-split_first word ∙ split_first_whole word none_in in
    let last' : last_name_of word ≡ codes "User" =
      rw (after_first-none word none_in, last_name_of) refl in
    (
      rw (first, last) (trim-Starts word rest hw he),
      rw (first', last') (trim-Starts word (codes "User") hw (λ e. omega arith)),
      first_name_of-split_first,
    )
