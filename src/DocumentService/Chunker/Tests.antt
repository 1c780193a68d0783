-- ===== src/DocumentService/Chunker/Tests.antt =====
-- The chunker at inputs of its own tests.
use ai_document_analysis.Prelude.{◌≡◌, refl, List, [], ◌∷◌, Text, codes, strip, arith}
use ai_document_analysis.DocumentService.Chunker.{ok, raise, value_error, split, chunk_text}
use ai_document_analysis.DocumentService.Chunker.Slices.{IsCut}
use ai_document_analysis.DocumentService.Chunker.Split.{split-IsCut}
use ai_document_analysis.DocumentService.Chunker.Overlap.{IsChunking, chunk_text-IsChunking}
use ai_document_analysis.DocumentService.Chunker.ZeroSize.{chunk_text_zero}

space_kept : chunk_text (codes "0 0") 1 0 ≡ ok (codes "0" ∷ codes " " ∷ codes "0" ∷ [])
unfolding chunk_text
space_kept = refl

tail_repeated :
    chunk_text (codes " aaa bb. ccc ") 4 2
    ≡ ok (codes "aaa " ∷ codes "a bb" ∷ codes "bb. " ∷ codes ". ccc" ∷ [])
unfolding chunk_text
tail_repeated = refl

long_separator :
    chunk_text (97 ∷ 10 ∷ 10 ∷ 10 ∷ 10 ∷ 98 ∷ []) 1 0
    ≡ ok ((97 ∷ []) ∷ (10 ∷ []) ∷ (10 ∷ []) ∷ (10 ∷ []) ∷ (10 ∷ []) ∷ (98 ∷ []) ∷ [])
unfolding chunk_text
long_separator = refl

chunk_text-IsChunking_example :
    (r : List Text) × (chunk_text (codes " aaa bb. ccc ") 4 2 ≡ ok r)
    × IsChunking 4 2 (strip (codes " aaa bb. ccc ")) r
chunk_text-IsChunking_example = chunk_text-IsChunking (codes " aaa bb. ccc ") 4 2 (omega arith)

zero_size_refused : chunk_text (codes " a b ") 0 2 ≡ raise value_error
unfolding strip
zero_size_refused = chunk_text_zero (codes " a b ") 2 (cc)

five_in_twos :
    (r : List Text) × (split 11 4 (codes "aaa bb. ccc") ≡ ok r) × IsCut 4 (codes "aaa bb. ccc") r
five_in_twos = split-IsCut 11 3 (codes "aaa bb. ccc") (omega arith) (omega arith)
