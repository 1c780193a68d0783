-- ===== src/DocumentService/Chunker/Split.antt =====
-- `_split` ends, and cuts its text into pieces that fit.
use mathlib.Core.List.{append-nil}
use ai_document_analysis.Prelude.{
  ℕ, zero, suc, ◌≤◌, ◌≡◌, refl, ap₂, ◌∙◌, inl, inr, List, [], ◌∷◌, ◌++◌, Text, arith, length,
  concat, All, All-append, concat-append, leb, ltb, Bool-cases, if◌then◌else◌,
}
use ai_document_analysis.DocumentService.Chunker.{
  Result, ok, separators, tokens_of, pack, is_whole, extend_all, split,
}
use ai_document_analysis.DocumentService.Chunker.Tokens.{concat-tokens}
use ai_document_analysis.DocumentService.Chunker.Packing.{
  IsInhabited, concat-pack, pack-IsInhabited, chunks_shorter,
}
use ai_document_analysis.DocumentService.Chunker.Slices.{IsCut, slices-IsCut}

abbrev Cuts : ℕ → Text → Result (List Text) → Type 0
Cuts size text result = (r : List Text) × (result ≡ ok r) × IsCut size text r

IsCut-self : (size : ℕ) (c : Text) → IsInhabited c → length c ≤ size → IsCut size c (c ∷ [])
IsCut-self size c inhabited fits = record {
  joined = append-nil c;
  fits = (fits, tt);
  inhabited = (inhabited, tt);
}

IsCut-append :
    (size : ℕ) (c d : Text) (r s : List Text)
    → IsCut size c r
    → IsCut size d s
    → IsCut size (c ++ d) (r ++ s)
IsCut-append size c d r s h k = record {
  joined = concat-append r s ∙ ap₂ ◌++◌ h.joined k.joined;
  fits = All-append _ r s h.fits k.fits;
  inhabited = All-append _ r s h.inhabited k.inhabited;
}

-- One round of the final loop, when the nested call does its work.
piece-Cuts :
    (again : Text → Result (List Text)) (size : ℕ) (c : Text)
    → IsInhabited c
    → Cuts size c (again c)
    → Cuts size c (if ltb size (length c) then again c else ok (c ∷ []))
piece-Cuts again size c inhabited cut = elim (Bool-cases (ltb size (length c))) [
  | inl long ↦ rw long cut
  | inr short ↦ rw short (c ∷ [], refl, IsCut-self size c inhabited (ground arith))
]

extend_all-Cuts :
    (again : Text → Result (List Text)) (size n : ℕ)
    → ((c : Text) → IsInhabited c → length c ≤ n → Cuts size c (again c))
    → (chunks : List Text) → All (λ c. IsInhabited c × (length c ≤ n)) chunks
    → Cuts size (concat chunks) (extend_all again size chunks)
unfolding extend_all
extend_all-Cuts again size n ih [] h =
    ([], refl, record { joined = refl; fits = tt; inhabited = tt })
extend_all-Cuts again size n ih (c ∷ chunks) h =
    let (r, e, cut) = piece-Cuts again size c h.0.0 (ih c h.0.0 h.0.1) in
    let (s, f, cuts) = extend_all-Cuts again size n ih chunks h.1 in
    (r ++ s, rw (e, f), IsCut-append size c (concat chunks) r s cut cuts)

-- For a positive size and as much fuel as characters, `_split` returns: the pieces joined are the
-- text, and each holds at least one and at most `size` characters.
pub split-IsCut :
    (fuel k : ℕ) (text : Text)
    → IsInhabited text
    → length text ≤ fuel
    → (r : List Text) × (split fuel (suc k) text ≡ ok r) × IsCut (suc k) text r
unfolding split
split-IsCut zero k text inhabited enough = absurd (omega arith)
split-IsCut (suc fuel) k text inhabited enough = elim (Bool-cases (leb (length text) size)) [
  | inl short ↦ rw short (text ∷ [], refl, IsCut-self size text inhabited (ground arith))
  | inr long ↦ elim (Bool-cases (is_whole chunks text)) [
    | inl whole ↦ rw (long, whole) (slices-IsCut k text)
    | inr parts ↦
        let shorter =
          chunks_shorter fuel chunks text joined parts (pack-IsInhabited size tokens []) enough in
        rw (long, parts)
          (rw joined at
            (extend_all-Cuts (split fuel size) size fuel (split-IsCut fuel k) chunks shorter))
  ]
]
  where
    size : ℕ
    size = suc k

    tokens : List Text
    tokens = tokens_of separators text

    chunks : List Text
    chunks = pack size tokens []

    joined : concat chunks ≡ text
    joined = concat-pack size tokens [] ∙ concat-tokens text
