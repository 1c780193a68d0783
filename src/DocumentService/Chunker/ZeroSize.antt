-- ===== src/DocumentService/Chunker/ZeroSize.antt =====
-- A chunk size of zero ends in Python's ValueError, and never in endless nested calls.
use ai_document_analysis.Prelude.{
  ℕ, zero, suc, ◌≤◌, ◌≡◌, ◌≢◌, refl, ◌∙◌, inl, inr, true, false, List, [], ◌∷◌, Text, arith, strip,
  length, concat, All, leb, ltb, Bool-cases,
}
use ai_document_analysis.DocumentService.Chunker.{
  Result, raise, value_error, separators, tokens_of, pack, is_whole, slices, extend_all, split,
  chunk_stripped, chunk_text,
}
use ai_document_analysis.DocumentService.Chunker.Tokens.{concat-tokens}
use ai_document_analysis.DocumentService.Chunker.Packing.{
  IsInhabited, concat-pack, pack-IsInhabited, chunks_shorter,
}

extend_all_fails :
    (again : Text → Result (List Text)) (n : ℕ)
    → ((c : Text) → IsInhabited c → length c ≤ n → again c ≡ raise value_error)
    → (chunks : List Text) → IsInhabited (concat chunks)
    → All (λ c. IsInhabited c × (length c ≤ n)) chunks
    → extend_all again 0 chunks ≡ raise value_error
unfolding extend_all
extend_all_fails again n ih [] some_text h = absurd (omega arith)
extend_all_fails again n ih ([] ∷ chunks) some_text h = absurd (omega (arith, h.0.0))
extend_all_fails again n ih ((x ∷ c) ∷ chunks) some_text h =
    let long : ltb 0 (suc (length c)) ≡ true = ground arith in rw (long, ih (x ∷ c) h.0.0 h.0.1)

split_zero :
    (fuel : ℕ) (text : Text)
    → IsInhabited text
    → length text ≤ fuel
    → split fuel 0 text ≡ raise value_error
unfolding split slices
split_zero zero text inhabited enough = absurd (omega arith)
split_zero (suc fuel) text inhabited enough =
    let long : leb (length text) 0 ≡ false = ground arith in
    elim (Bool-cases (is_whole chunks text)) [
      | inl whole ↦ rw (long, whole)
      | inr parts ↦
          let shorter =
            chunks_shorter fuel chunks text joined parts (pack-IsInhabited 0 tokens []) enough in
          rw (long, parts)
            (extend_all_fails (split fuel 0) fuel (split_zero fuel) chunks (rw joined inhabited)
              shorter)
    ]
  where
    tokens : List Text
    tokens = tokens_of separators text

    chunks : List Text
    chunks = pack 0 tokens []

    joined : concat chunks ≡ text
    joined = concat-pack 0 tokens [] ∙ concat-tokens text

chunk_stripped_zero :
    (text : Text) (overlap : ℕ) → text ≢ [] → chunk_stripped text 0 overlap ≡ raise value_error
unfolding chunk_stripped
chunk_stripped_zero [] overlap h = absurd (h refl)
chunk_stripped_zero (c ∷ t) overlap h =
    rw (split_zero (suc (length (c ∷ t))) (c ∷ t) (omega arith) (omega arith))

-- With a chunk size of zero, a text that is not blank is refused by a ValueError.
pub chunk_text_zero :
    (text : Text) (overlap : ℕ) → strip text ≢ [] → chunk_text text 0 overlap ≡ raise value_error
unfolding chunk_text
chunk_text_zero text overlap h = chunk_stripped_zero (strip text) overlap h
