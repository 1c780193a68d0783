-- ===== src/Prelude/Order.antt =====
-- The order of Python's strings, and `sorted` over a set of them.
use mathlib.Core.Path.{◌≡◌, refl, ap, ◌∙◌}
use mathlib.Core.Logic.{inl, inr}
use mathlib.Core.Bool.{Bool, true, false, ◌&&◌, ◌||◌}
use mathlib.Core.List.{List, [], ◌∷◌, ◌++◌}
use native.Mathlib.Omega.{arith}
use ai_document_analysis.Prelude.Lists.{All}
use ai_document_analysis.Prelude.Tests.{Bool-cases, ltb, nat_eq, if◌then◌else◌}
use ai_document_analysis.Prelude.Strings.{Text, text_eq, text_eq_iff}

-- `s < t`
unfoldable pub text_lt : Text → Text → Bool
text_lt s [] = false
text_lt [] (b ∷ t) = true
text_lt (a ∷ s) (b ∷ t) = ltb a b || (nat_eq a b && text_lt s t)

text_lt_trans : (s t u : Text) → text_lt s t ≡ true → text_lt t u ≡ true → text_lt s u ≡ true
unfolding text_lt
text_lt_trans s [] u h k = cc
text_lt_trans s (b ∷ t) [] h k = cc
text_lt_trans [] (b ∷ t) (c ∷ u) h k = refl
text_lt_trans (a ∷ s) (b ∷ t) (c ∷ u) h k = ground (arith, text_lt_trans s t u)

text_lt_total : (s t : Text) → text_eq s t ≡ false → text_lt s t ≡ false → text_lt t s ≡ true
unfolding text_lt text_eq
text_lt_total [] [] ne h = cc
text_lt_total [] (b ∷ t) ne h = cc
text_lt_total (a ∷ s) [] ne h = refl
text_lt_total (a ∷ s) (b ∷ t) ne h = ground (arith, text_lt_total s t)

-- An element of a set, put into the sorted list of the others.
unfoldable pub place : Text → List Text → List Text
place t [] = t ∷ []
place t (s ∷ ss) =
    let rest = place t ss in
    if text_eq s t then s ∷ ss else if text_lt s t then s ∷ rest else t ∷ s ∷ ss

-- `sorted(set(ts))`
unfoldable pub sorted_set : List Text → List Text
unfolding place
sorted_set [] = []
sorted_set (t ∷ ts) = place t (sorted_set ts)

-- Strictly ascending, so that nothing stands twice.
abbrev pub IsAscending : List Text → Type 0
IsAscending [] = Unit
IsAscending (t ∷ ts) = All (λ s. text_lt t s ≡ true) ts × IsAscending ts

abbrev pub is_in : Text → List Text → Bool
is_in t [] = false
is_in t (s ∷ ss) = text_eq s t || is_in t ss

All-place :
    (a t : Text) (ss : List Text)
    → text_lt a t ≡ true
    → All (λ s. text_lt a s ≡ true) ss
    → All (λ s. text_lt a s ≡ true) (place t ss)
unfolding place
All-place a t [] h k = (h, tt)
All-place a t (s ∷ ss) h k = ground (arith, All-place a t ss h k.1)

All-lt :
    (t s : Text) (ss : List Text)
    → text_lt t s ≡ true
    → All (λ u. text_lt s u ≡ true) ss
    → All (λ u. text_lt t u ≡ true) ss
All-lt t s [] h k = tt
All-lt t s (u ∷ ss) h k = (text_lt_trans t s u h k.0, All-lt t s ss h k.1)

place-IsAscending : (t : Text) (ss : List Text) → IsAscending ss → IsAscending (place t ss)
unfolding place
place-IsAscending t [] h = (tt, tt)
place-IsAscending t (s ∷ ss) h = elim (Bool-cases (text_eq s t)) [
  | inl same ↦ rw same h
  | inr other ↦ elim (Bool-cases (text_lt s t)) [
    | inl before ↦ rw (other, before) (All-place s t ss before h.0, place-IsAscending t ss h.1)
    | inr after ↦
        let lt = text_lt_total s t other after in rw (other, after) ((lt, All-lt t s ss lt h.0), h)
  ]
]

pub sorted_set-IsAscending : (ts : List Text) → IsAscending (sorted_set ts)
unfolding sorted_set
sorted_set-IsAscending [] = tt
sorted_set-IsAscending (t ∷ ts) = place-IsAscending t (sorted_set ts) (sorted_set-IsAscending ts)

is_in-place : (u t : Text) (ss : List Text) → is_in u (place t ss) ≡ (text_eq t u || is_in u ss)
unfolding place
is_in-place u t [] = refl
is_in-place u t (s ∷ ss) =
    ground (arith, text_eq_iff s t, text_eq_iff t u, text_eq_iff s u, is_in-place u t ss)

pub is_in-sorted_set : (u : Text) (ts : List Text) → is_in u (sorted_set ts) ≡ is_in u ts
unfolding sorted_set
is_in-sorted_set u [] = refl
is_in-sorted_set u (t ∷ ts) =
    is_in-place u t (sorted_set ts) ∙ ap (λ b. text_eq t u || b) (is_in-sorted_set u ts)

pub is_in-append : (u : Text) (ts us : List Text) → is_in u (ts ++ us) ≡ (is_in u ts || is_in u us)
is_in-append u [] us = refl
is_in-append u (t ∷ ts) us = ground (arith, is_in-append u ts us)
