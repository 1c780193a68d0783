-- ===== src/DocumentService/Chunker/Tokens.antt =====
-- The tokens of `_split` are its text, cut: nothing is lost at a separator.
use mathlib.Core.List.{append_assoc}
use ai_document_analysis.Prelude.{
  ℕ, zero, suc, ◌-◌, ◌<◌, ◌≡◌, refl, ap, inl, inr, true, List, [], ◌∷◌, ◌++◌, map, Text, arith,
  starts_with, contains, length, drop, concat, All, Bool-cases,
}
use ai_document_analysis.DocumentService.Chunker.{separators, split_from, re_split, tokens_of}

append-drop_of_starts_with :
    (sep text : Text) → starts_with sep text ≡ true → sep ++ drop (length sep) text ≡ text
unfolding starts_with
append-drop_of_starts_with [] text h = refl
append-drop_of_starts_with (a ∷ s) [] h = cc
append-drop_of_starts_with (a ∷ s) (b ∷ t) h = ground (arith, append-drop_of_starts_with s t)

concat-split_from :
    (s : ℕ) (sep : Text) (skip : ℕ) (current text : Text)
    → concat (split_from (s ∷ sep) skip current text) ≡ current ++ drop skip text
unfolding split_from
concat-split_from s sep zero current [] = refl
concat-split_from s sep (suc skip) current [] = refl
concat-split_from s sep (suc skip) current (c ∷ t) = concat-split_from s sep skip current t
concat-split_from s sep zero current (c ∷ t) = elim (Bool-cases (starts_with (s ∷ sep) (c ∷ t))) [
  | inl found ↦
      let e : suc (length sep) - 1 ≡ length sep = omega arith in
      rw (found, e, concat-split_from s sep (length sep) [] t)
        (ap (λ r. current ++ r) (append-drop_of_starts_with (s ∷ sep) (c ∷ t) found))
  | inr missed ↦
      rw (missed, concat-split_from s sep zero (current ++ c ∷ []) t) (append_assoc current _ t)
]

concat-singletons : (text : Text) → concat (map (λ c. c ∷ []) text) ≡ text
concat-singletons [] = refl
concat-singletons (c ∷ t) = ap (◌∷◌ c) (concat-singletons t)

concat-tokens_of :
    (seps : List Text) (text : Text)
    → All (λ sep. 0 < length sep) seps
    → concat (tokens_of seps text) ≡ text
unfolding tokens_of re_split
concat-tokens_of [] text h = concat-singletons text
concat-tokens_of ([] ∷ seps) text h = absurd (omega arith)
concat-tokens_of ((s ∷ sep) ∷ seps) text h = elim (Bool-cases (contains (s ∷ sep) text)) [
  | inl found ↦ rw found (concat-split_from s sep 0 [] text)
  | inr missed ↦ rw missed (concat-tokens_of seps text h.1)
]

pub concat-tokens : (text : Text) → concat (tokens_of separators text) ≡ text
concat-tokens text = concat-tokens_of separators text (omega arith)
