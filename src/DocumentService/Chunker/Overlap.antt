-- ===== src/DocumentService/Chunker/Overlap.antt =====
-- `chunk_text`: with the overlaps, still nothing of the stripped text is lost.
use ai_document_analysis.Prelude.{
  ℕ, zero, suc, ◌+◌, ◌-◌, ◌≤◌, ◌<◌, ◌≡◌, refl, ap, inl, inr, Bool, true, ◌||◌, List, [], ◌∷◌, ◌++◌,
  Text, arith, strip, length, drop, All, length-append, length-drop, nat_eq, leb, min, Bool-cases,
  if◌then◌else◌,
}
use ai_document_analysis.DocumentService.Chunker.{
  ok, tail_of, overlap_from, overlapped, chunk_stripped, chunk_text,
}
use ai_document_analysis.DocumentService.Chunker.Slices.{IsCut}
use ai_document_analysis.DocumentService.Chunker.Split.{split-IsCut}

-- The chunks without what each repeats of the one before it: a reader's way back to the text.
-- `n` is the length of the previous piece.
pub strip_overlap_from : ℕ → ℕ → List Text → List Text
strip_overlap_from overlap n [] = []
strip_overlap_from overlap n (chunk ∷ chunks) =
    let piece = drop (min overlap n) chunk in
    piece ∷ strip_overlap_from overlap (length piece) chunks

-- The first chunk repeats nothing.
abbrev pub strip_overlap : ℕ → List Text → List Text
strip_overlap overlap chunks = strip_overlap_from overlap 0 chunks

drop-append {ℓ} : {A : Type ℓ} (xs ys : List A) → drop (length xs) (xs ++ ys) ≡ ys
drop-append [] ys = refl
drop-append (x ∷ xs) ys = drop-append xs ys

length-tail_of :
    (overlap : ℕ) (prev : Text) → length (tail_of overlap prev) ≡ min overlap (length prev)
length-tail_of overlap prev = omega (arith, length-drop (length prev - overlap) prev)

drop-tail_of :
    (overlap : ℕ) (prev chunk : Text)
    → drop (min overlap (length prev)) (tail_of overlap prev ++ chunk) ≡ chunk
drop-tail_of overlap prev chunk =
    rw (← length-tail_of overlap prev) (drop-append (tail_of overlap prev) chunk)

strip-overlap_from :
    (overlap : ℕ) (prev : Text) (chunks : List Text)
    → strip_overlap_from overlap (length prev) (overlap_from overlap prev chunks) ≡ chunks
unfolding strip_overlap_from overlap_from
strip-overlap_from overlap prev [] = refl
strip-overlap_from overlap prev (chunk ∷ chunks) =
    rw (drop-tail_of overlap prev chunk) (ap (◌∷◌ chunk) (strip-overlap_from overlap chunk chunks))

strip-overlapped :
    (overlap : ℕ) (chunks : List Text) → strip_overlap overlap (overlapped overlap chunks) ≡ chunks
unfolding overlapped strip_overlap_from
strip-overlapped overlap [] = refl
strip-overlapped overlap (chunk ∷ chunks) =
    let e : min overlap 0 ≡ 0 = omega arith in
    rw e (ap (◌∷◌ chunk) (strip-overlap_from overlap chunk chunks))

overlap_from-fits :
    (size overlap : ℕ) (prev : Text) (chunks : List Text)
    → All (λ c. length c ≤ size) chunks
    → All (λ c. length c ≤ size + overlap) (overlap_from overlap prev chunks)
unfolding overlap_from
overlap_from-fits size overlap prev [] h = tt
overlap_from-fits size overlap prev (chunk ∷ chunks) h = (
  omega (arith, h.0, length-append (tail_of overlap prev) chunk, length-tail_of overlap prev),
  overlap_from-fits size overlap chunk chunks h.1,
)

strip_overlap-zero : (n : ℕ) (chunks : List Text) → strip_overlap_from 0 n chunks ≡ chunks
unfolding strip_overlap_from
strip_overlap-zero n [] = refl
strip_overlap-zero n (chunk ∷ chunks) =
    let e : min 0 n ≡ 0 = omega arith in
    rw e (ap (◌∷◌ chunk) (strip_overlap-zero (length chunk) chunks))

strip_overlap-few :
    (overlap : ℕ) (chunks : List Text) → length chunks ≤ 1 → strip_overlap overlap chunks ≡ chunks
unfolding strip_overlap_from
strip_overlap-few overlap [] h = refl
strip_overlap-few overlap (chunk ∷ []) h = let e : min overlap 0 ≡ 0 = omega arith in rw e
strip_overlap-few overlap (chunk ∷ other ∷ chunks) h = absurd (omega arith)

All-le-add :
    (size overlap : ℕ) (chunks : List Text)
    → All (λ c. length c ≤ size) chunks
    → All (λ c. length c ≤ size + overlap) chunks
All-le-add size overlap [] h = tt
All-le-add size overlap (c ∷ chunks) h = (omega arith, All-le-add size overlap chunks h.1)

-- What `chunk_text` promises of `r` for a stripped text: without the overlaps its chunks cut the
-- text, and with them none is longer than the two sizes together.
pub record IsChunking (size overlap : ℕ) (text : Text) (r : List Text) : Type 0 where
  pub cut : IsCut size text (strip_overlap overlap r)
  pub bounded : All (λ c. length c ≤ size + overlap) r

few-IsChunking :
    (size overlap : ℕ) (text : Text) (chunks : List Text)
    → strip_overlap overlap chunks ≡ chunks
    → IsCut size text chunks
    → IsChunking size overlap text chunks
few-IsChunking size overlap text chunks e cut = record {
  cut = rw e cut;
  bounded = All-le-add size overlap chunks cut.fits;
}

overlapped-IsChunking :
    (size overlap : ℕ) (text : Text) (chunks : List Text)
    → IsCut size text chunks
    → IsChunking size overlap text (overlapped overlap chunks)
unfolding overlapped
overlapped-IsChunking size overlap text [] cut =
    few-IsChunking size overlap text [] (strip_overlap-few overlap [] (omega arith)) cut
overlapped-IsChunking size overlap text (c ∷ chunks) cut = record {
  cut = rw (strip-overlapped overlap (c ∷ chunks)) cut;
  bounded = (omega (arith, cut.fits.0), overlap_from-fits size overlap c chunks cut.fits.1);
}

-- The test for chunks that are returned as they are.
abbrev plain : ℕ → List Text → Bool
plain overlap chunks = nat_eq overlap 0 || leb (length chunks) 1

strip_overlap-plain :
    (overlap : ℕ) (chunks : List Text)
    → plain overlap chunks ≡ true
    → strip_overlap overlap chunks ≡ chunks
strip_overlap-plain zero chunks h = strip_overlap-zero 0 chunks
strip_overlap-plain (suc overlap) chunks h = strip_overlap-few (suc overlap) chunks (ground arith)

with_overlap-IsChunking :
    (size overlap : ℕ) (text : Text) (chunks : List Text)
    → IsCut size text chunks
    → IsChunking size overlap text
        (if plain overlap chunks then chunks else overlapped overlap chunks)
with_overlap-IsChunking size overlap text chunks cut = elim (Bool-cases (plain overlap chunks)) [
  | inl same ↦
      rw same
        (few-IsChunking size overlap text chunks (strip_overlap-plain overlap chunks same) cut)
  | inr more ↦ rw more (overlapped-IsChunking size overlap text chunks cut)
]

chunk_stripped-IsChunking :
    (text : Text) (k overlap : ℕ)
    → (r : List Text) × (chunk_stripped text (suc k) overlap ≡ ok r)
      × IsChunking (suc k) overlap text r
unfolding chunk_stripped
chunk_stripped-IsChunking [] k overlap = (
  [],
  refl,
  few-IsChunking (suc k) overlap [] [] (strip_overlap-few overlap [] (omega arith))
      (record { joined = refl; fits = tt; inhabited = tt }),
)
chunk_stripped-IsChunking (c ∷ t) k overlap =
    let (chunks, e, cut) =
      split-IsCut (suc (length (c ∷ t))) k (c ∷ t) (omega arith) (omega arith) in
    (
      if nat_eq overlap 0 || leb (length chunks) 1 then chunks else overlapped overlap chunks,
      rw e,
      with_overlap-IsChunking (suc k) overlap (c ∷ t) chunks cut,
    )

-- For a positive chunk size `chunk_text` returns, whatever the text and the overlap. Each chunk is
-- at most the size and the overlap long. Without what each chunk repeats of the one before it, the
-- chunks joined are the stripped text, and each has at least one and at most `size` characters.
pub chunk_text-IsChunking :
    (text : Text) (size overlap : ℕ)
    → 0 < size
    → (r : List Text) × (chunk_text text size overlap ≡ ok r)
      × IsChunking size overlap (strip text) r
unfolding chunk_text
chunk_text-IsChunking text zero overlap h = absurd (omega arith)
chunk_text-IsChunking text (suc k) overlap h = chunk_stripped-IsChunking (strip text) k overlap
