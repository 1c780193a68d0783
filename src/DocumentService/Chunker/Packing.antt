-- ===== src/DocumentService/Chunker/Packing.antt =====
-- The packing loop of `_split` keeps the text, makes no empty chunk, and makes progress.
use mathlib.Core.List.{append-nil, append_assoc}
use ai_document_analysis.Prelude.{
  ℕ, suc, ◌+◌, ◌≤◌, ◌<◌, ◌≡◌, refl, sym, ap, ◌∙◌, inl, inr, false, List, [], ◌∷◌, ◌++◌, Text, arith,
  text_eq_iff, length, concat, All, length-append, leb, Bool-cases,
}
use ai_document_analysis.DocumentService.Chunker.{emit, pack, is_whole}

abbrev pub IsInhabited : Text → Type 0
IsInhabited c = 0 < length c

concat-emit :
    (current : Text) (chunks : List Text) → concat (emit current chunks) ≡ current ++ concat chunks
concat-emit [] chunks = refl
concat-emit (c ∷ current) chunks = refl

emit-IsInhabited :
    (current : Text) (chunks : List Text)
    → All IsInhabited chunks
    → All IsInhabited (emit current chunks)
emit-IsInhabited [] chunks h = h
emit-IsInhabited (c ∷ current) chunks h = (omega arith, h)

pub concat-pack :
    (size : ℕ) (tokens : List Text) (current : Text)
    → concat (pack size tokens current) ≡ current ++ concat tokens
unfolding pack
concat-pack size [] current = concat-emit current []
concat-pack size (token ∷ tokens) current =
    elim (Bool-cases (leb (length (current ++ token)) size)) [
      | inl fits ↦
          rw (fits, concat-pack size tokens (current ++ token)) (append_assoc current token _)
      | inr full ↦ rw (full, concat-emit, concat-pack size tokens token)
    ]

pub pack-IsInhabited :
    (size : ℕ) (tokens : List Text) (current : Text) → All IsInhabited (pack size tokens current)
unfolding pack
pack-IsInhabited size [] current = emit-IsInhabited current [] tt
pack-IsInhabited size (token ∷ tokens) current =
    elim (Bool-cases (leb (length (current ++ token)) size)) [
      | inl fits ↦ rw fits (pack-IsInhabited size tokens (current ++ token))
      | inr full ↦ rw full (emit-IsInhabited current _ (pack-IsInhabited size tokens token))
    ]

length-le-concat :
    (n : ℕ) (chunks : List Text)
    → length (concat chunks) ≤ n
    → All IsInhabited chunks
    → All (λ c. IsInhabited c × (length c ≤ n)) chunks
length-le-concat n [] h inhabited = tt
length-le-concat n (c ∷ chunks) h inhabited = (
  (inhabited.0, omega (arith, length-append c (concat chunks))),
  length-le-concat n chunks (omega (arith, length-append c (concat chunks))) inhabited.1,
)

-- Unless the loop made the whole text its one chunk, each chunk is shorter than the text.
pub chunks_shorter :
    (n : ℕ) (chunks : List Text) (text : Text)
    → concat chunks ≡ text
    → is_whole chunks text ≡ false
    → All IsInhabited chunks
    → length text ≤ suc n
    → All (λ c. IsInhabited c × (length c ≤ n)) chunks
chunks_shorter n [] text e split inhabited h = tt
chunks_shorter n (c ∷ []) text e split inhabited h =
    let whole = (text_eq_iff c text).1 (sym (append-nil c) ∙ e) in cc whole
chunks_shorter n (c ∷ d ∷ chunks) text e split inhabited h =
    let total : length c + length (concat (d ∷ chunks)) ≤ suc n =
      omega (arith, length-append c (concat (d ∷ chunks)), ap length e) in
    let rest = length-append d (concat chunks) in
    (
      (inhabited.0, omega (arith, rest, inhabited.1.0)),
      length-le-concat n (d ∷ chunks) (omega arith) inhabited.1,
    )
