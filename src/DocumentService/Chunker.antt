-- ===== src/DocumentService/Chunker.antt =====
-- document-service/app/utils/chunker.py: `chunk_text` and `_split`, with the parts of `str` and
-- `re` that they use. Sizes are the non-negative ones; the error results are Python's ValueError
-- of `range(0, n, 0)`, and the end of the fuel, which the theorems rule out.
pub mod Tokens
pub mod Packing
pub mod Slices
pub mod Split
pub mod Overlap
pub mod ZeroSize
mod Tests
use ai_document_analysis.Prelude.{
  ℕ, zero, suc, ◌+◌, ◌-◌, ◌*◌, ◌/◌, Bool, true, false, ◌&&◌, ◌||◌, List, [], ◌∷◌, ◌++◌, map, Text,
  text_eq, strip, starts_with, contains, length, take, drop, is_empty, leb, ltb, nat_eq,
  if◌then◌else◌,
}

pub data Error : Type 0 where
  value_error out_of_fuel : Error

pub data Result (A : Type 0) : Type 0 where
  ok : A → Result A
  raise : Error → Result A

infixl 5 ◌>>=◌
abbrev pub ◌>>=◌ : {A B : Type 0} → Result A → (A → Result B) → Result B
ok a >>= f = f a
raise e >>= f = raise e

-- SEPARATORS: a blank line, a line break, a full stop with a space, a space.
abbrev pub separators : List Text
separators = (10 ∷ 10 ∷ []) ∷ (10 ∷ []) ∷ (46 ∷ 32 ∷ []) ∷ (32 ∷ []) ∷ []

-- `re.split` by a captured literal: leftmost matches that do not overlap, each kept as a token.
-- `skip` counts the characters of the current match that are still to be passed over, and
-- `current` is the text since the last match.
pub split_from : Text → ℕ → Text → Text → List Text
unfolding starts_with
split_from sep skip current [] = current ∷ []
split_from sep (suc skip) current (c ∷ t) = split_from sep skip current t
split_from sep zero current (c ∷ t) =
    let matched = current ∷ sep ∷ split_from sep (length sep - 1) [] t in
    let passed = split_from sep zero (current ++ c ∷ []) t in
    if starts_with sep (c ∷ t) then matched else passed

-- `re.split(f"({re.escape(sep)})", text)`
pub re_split : Text → Text → List Text
unfolding split_from
re_split sep text = split_from sep 0 [] text

-- The loop over SEPARATORS with its `else`: the first separator that occurs, or `list(text)`.
pub tokens_of : List Text → Text → List Text
unfolding contains re_split
tokens_of [] text = map (λ c. c ∷ []) text
tokens_of (sep ∷ seps) text =
    let other = tokens_of seps text in if contains sep text then re_split sep text else other

-- `if current: chunks.append(current)`, before the chunks that follow.
abbrev pub emit : Text → List Text → List Text
emit [] chunks = chunks
emit (c ∷ current) chunks = (c ∷ current) ∷ chunks

-- The loop over the tokens.
pub pack : ℕ → List Text → Text → List Text
pack size [] current = emit current []
pack size (token ∷ tokens) current =
    let candidate = current ++ token in
    let joined = pack size tokens candidate in
    let cut = emit current (pack size tokens token) in
    if leb (length candidate) size then joined else cut

-- `range(start, …, step)` with `count` members.
pub range_by : ℕ → ℕ → ℕ → List ℕ
range_by zero start step = []
range_by (suc count) start step = start ∷ range_by count (start + step) step

-- `text[i:i+size]`
abbrev pub slice : ℕ → Text → ℕ → Text
slice size text i = take size (drop i text)

-- `[text[i:i+chunk_size] for i in range(0, len(text), chunk_size)]`
pub slices : ℕ → Text → Result (List Text)
unfolding range_by
slices zero text = raise value_error
slices (suc k) text = ok (map (slice (suc k) text) (range_by ((length text + k) / suc k) 0 (suc k)))

-- `len(chunks) == 1 and chunks[0] == text`
abbrev pub is_whole : List Text → Text → Bool
is_whole [] text = false
is_whole (c ∷ []) text = text_eq c text
is_whole (c ∷ d ∷ chunks) text = false

-- The final loop: a chunk that is too long is split again, any other is kept.
pub extend_all : (Text → Result (List Text)) → ℕ → List Text → Result (List Text)
extend_all again size [] = ok []
extend_all again size (c ∷ chunks) = do
  first ← if ltb size (length c) then again c else ok (c ∷ [])
  rest ← extend_all again size chunks
  ok (first ++ rest)

-- `_split`. Each nested call gets one unit of fuel less.
pub split : ℕ → ℕ → Text → Result (List Text)
unfolding tokens_of pack slices extend_all text_eq
split zero size text = raise out_of_fuel
split (suc fuel) size text =
    let chunks = pack size (tokens_of separators text) [] in
    if leb (length text) size
    then ok (text ∷ [])
    else if is_whole chunks text
    then slices size text
    else extend_all (split fuel size) size chunks

-- `chunks[i-1][-chunk_overlap:]` for a positive overlap
abbrev pub tail_of : ℕ → Text → Text
tail_of overlap chunk = drop (length chunk - overlap) chunk

-- The loop over `enumerate(chunks)` after its first round: `prev` is `chunks[i-1]`.
pub overlap_from : ℕ → Text → List Text → List Text
overlap_from overlap prev [] = []
overlap_from overlap prev (chunk ∷ chunks) =
    (tail_of overlap prev ++ chunk) ∷ overlap_from overlap chunk chunks

pub overlapped : ℕ → List Text → List Text
unfolding overlap_from
overlapped overlap [] = []
overlapped overlap (chunk ∷ chunks) = chunk ∷ overlap_from overlap chunk chunks

-- The text after `strip`, with more fuel than it has characters.
pub chunk_stripped : Text → ℕ → ℕ → Result (List Text)
unfolding split overlapped
chunk_stripped [] size overlap = ok []
chunk_stripped (c ∷ t) size overlap = do
  chunks ← split (suc (length (c ∷ t))) size (c ∷ t)
  ok (if nat_eq overlap 0 || leb (length chunks) 1 then chunks else overlapped overlap chunks)

unfoldable pub chunk_text : Text → ℕ → ℕ → Result (List Text)
unfolding strip chunk_stripped
chunk_text text size overlap = chunk_stripped (strip text) size overlap
