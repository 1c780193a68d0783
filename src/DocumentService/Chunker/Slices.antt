-- ===== src/DocumentService/Chunker/Slices.antt =====
-- The fixed-size slices of `_split` are the text, cut: none is empty or longer than the size.
use ai_document_analysis.Prelude.{
  ℕ, zero, suc, ◌+◌, ◌*◌, ◌/◌, ◌≤◌, ◌<◌, ◌≡◌, refl, ◌∙◌, List, map, Text, arith, length, take, drop,
  concat, All, length-take, length-drop, take-add, drop-drop, take_of_length-le,
}
use ai_document_analysis.DocumentService.Chunker.{ok, slice, range_by, slices}
use ai_document_analysis.DocumentService.Chunker.Packing.{IsInhabited}

concat-slices :
    (size : ℕ) (text : Text) (count start : ℕ)
    → concat (map (slice size text) (range_by count start size))
      ≡ take (count * size) (drop start text)
unfolding range_by
concat-slices size text zero start = let e : zero * size ≡ 0 = omega arith in rw e
concat-slices size text (suc count) start =
    let e : suc count * size ≡ size + count * size = omega arith in
    rw (concat-slices size text count (start + size), e, ← drop-drop start size text)
      (take-add size (count * size) (drop start text))

-- What the caller of `_split` relies on: `r` cuts `text` into pieces of 1 to `size` characters.
pub record IsCut (size : ℕ) (text : Text) (r : List Text) : Type 0 where
  pub joined : concat r ≡ text
  pub fits : All (λ c. length c ≤ size) r
  pub inhabited : All IsInhabited r

slices-fit :
    (size : ℕ) (text : Text) (count start : ℕ)
    → All (λ c. length c ≤ size) (map (slice size text) (range_by count start size))
unfolding range_by
slices-fit size text zero start = tt
slices-fit size text (suc count) start =
    (omega (arith, length-take size (drop start text)), slices-fit size text count (start + size))

slices-IsInhabited :
    (size : ℕ) (text : Text) (count start : ℕ)
    → 0 < size
    → start + count * size < length text + size
    → All IsInhabited (map (slice size text) (range_by count start size))
unfolding range_by
slices-IsInhabited size text zero start p h = tt
slices-IsInhabited size text (suc count) start p h = (
  omega (arith, length-take size (drop start text), length-drop start text),
  slices-IsInhabited size text count (start + size) p (omega arith),
)

rounds-ge : (n k : ℕ) → n ≤ (n + k) / suc k * suc k
rounds-ge n k = grind arith

rounds-lt : (n k : ℕ) → (n + k) / suc k * suc k < n + suc k
rounds-lt n k = grind arith

pub slices-IsCut :
    (k : ℕ) (text : Text) → (r : List Text) × (slices (suc k) text ≡ ok r) × IsCut (suc k) text r
unfolding slices
slices-IsCut k text =
    let count = (length text + k) / suc k in
    (
      map (slice (suc k) text) (range_by count 0 (suc k)),
      refl,
      record {
        joined =
            concat-slices (suc k) text count 0
            ∙ take_of_length-le (count * suc k) text (rounds-ge (length text) k);
        fits = slices-fit (suc k) text count 0;
        inhabited =
            slices-IsInhabited (suc k) text count 0 (omega arith)
              (omega (arith, rounds-lt (length text) k));
      },
    )
