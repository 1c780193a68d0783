-- ===== src/AiWorker/FaissStore/Chunks.antt =====
-- The texts of one document under the loops of `add` and `delete_document`, and what a lookup
-- finds after `add`.
use mathlib.Core.List.{append-nil, append_assoc}
use ai_document_analysis.Prelude.{
  ℕ, zero, suc, ◌-◌, ◌≤◌, ◌<◌, ◌≡◌, refl, sym, ap, ◌∙◌, true, false, Option, none, some, List, [],
  ◌∷◌, ◌++◌, Text, nat-Eq, text-Eq, text_eq_iff, length, arith, if◌then◌else◌,
}
use ai_document_analysis.Prelude.Dict.{Dict, lookup, insert, lookup-insert}
use ai_document_analysis.AiWorker.FaissStore.{arange, is_chunk_of, tag_all}
use ai_document_analysis.AiWorker.FaissStore.Ids.{IsDistinct, insert-IsDistinct, in_range, matched}
use ai_document_analysis.AiWorker.FaissStore.Types.{Meta}

-- The texts stored for a document of an owner, in the order of the entries.
unfoldable pub texts_of : Text → Text → Dict ℕ Meta → List Text
texts_of document_id owner [] = []
texts_of document_id owner ((i, meta) ∷ d) =
    let rest = texts_of document_id owner d in
    if is_chunk_of document_id owner meta then meta.text ∷ rest else rest

pub texts_of-eq-nil :
    (document_id owner : Text) (d : Dict ℕ Meta)
    → IsDistinct d
    → ((i : ℕ) → matched document_id owner (lookup i d) ≡ false)
    → texts_of document_id owner d ≡ []
unfolding texts_of
texts_of-eq-nil document_id owner [] h free = refl
texts_of-eq-nil document_id owner ((i, meta) ∷ d) h free =
    let head_free : is_chunk_of document_id owner meta ≡ false = ground (arith, free i) in
    rw head_free (texts_of-eq-nil document_id owner d h.1 (λ j. ground (arith, free j, h.0)))

insert_fresh :
    (k : ℕ) (v : Meta) (d : Dict ℕ Meta) → lookup k d ≡ none → insert k v d ≡ d ++ (k, v) ∷ []
insert_fresh k v [] e = refl
insert_fresh k v ((j, w) ∷ d) e = ground (arith, insert_fresh k v d)

texts_of-append :
    (document_id owner : Text) (d e : Dict ℕ Meta)
    → texts_of document_id owner (d ++ e)
      ≡ texts_of document_id owner d ++ texts_of document_id owner e
unfolding texts_of
texts_of-append document_id owner [] e = refl
texts_of-append document_id owner ((i, meta) ∷ d) e =
    ground (arith, texts_of-append document_id owner d e)

abbrev chunk_meta : Text → Text → ℕ → Text → Meta
chunk_meta document_id owner offset text = record {
  document_id = document_id;
  owner_id = some owner;
  chunk_index = offset;
  text = text;
}

chunk_meta-is_chunk_of :
    (document_id owner : Text) (offset : ℕ) (text : Text)
    → is_chunk_of document_id owner (chunk_meta document_id owner offset text) ≡ true
chunk_meta-is_chunk_of document_id owner offset text =
    ground (arith, text_eq_iff document_id document_id, text_eq_iff owner owner)

texts_of_single :
    (document_id owner : Text) (offset k : ℕ) (text : Text)
    → texts_of document_id owner ((k, chunk_meta document_id owner offset text) ∷ []) ≡ text ∷ []
unfolding texts_of
texts_of_single document_id owner offset k text =
    rw (chunk_meta-is_chunk_of document_id owner offset text)

-- Under ids that are all new, the chunks come after what was stored for the document.
pub texts_of-tag_all :
    (document_id owner : Text) (offset start : ℕ) (chunks : List Text) (d : Dict ℕ Meta)
    → ((i : ℕ) → start ≤ i → lookup i d ≡ none)
    → texts_of document_id owner
        (tag_all document_id owner offset (arange start (length chunks)) chunks d)
      ≡ texts_of document_id owner d ++ chunks
unfolding tag_all
texts_of-tag_all document_id owner offset start [] d fresh = sym (append-nil _)
texts_of-tag_all document_id owner offset start (text ∷ chunks) d fresh =
    texts_of-tag_all document_id owner (suc offset) (suc start) chunks
      (insert start (chunk_meta document_id owner offset text) d)
      (λ i h.
        ground (arith, lookup-insert start i (chunk_meta document_id owner offset text) d, fresh i))
    ∙ ap (λ ts. ts ++ chunks)
        (ap (texts_of document_id owner) (
            insert_fresh start (chunk_meta document_id owner offset text) d
              (fresh start (omega arith)))
          ∙ texts_of-append document_id owner d _
          ∙ ap (λ ts. texts_of document_id owner d ++ ts)
              (texts_of_single document_id owner offset start text))
    ∙ append_assoc (texts_of document_id owner d) (text ∷ []) chunks

pub tag_all-IsDistinct :
    (document_id owner : Text) (offset : ℕ) (ids : List ℕ) (chunks : List Text) (d : Dict ℕ Meta)
    → IsDistinct d
    → IsDistinct (tag_all document_id owner offset ids chunks d)
unfolding tag_all
tag_all-IsDistinct document_id owner offset [] chunks d h = h
tag_all-IsDistinct document_id owner offset (i ∷ ids) [] d h = h
tag_all-IsDistinct document_id owner offset (i ∷ ids) (text ∷ chunks) d h =
    tag_all-IsDistinct document_id owner (suc offset) ids chunks _
      (insert-IsDistinct i (chunk_meta document_id owner offset text) d h)

-- The entry that `add` makes for the k-th chunk.
abbrev pub new_entry : Text → Text → ℕ → List Text → ℕ → Option Meta
new_entry document_id owner offset [] k = none
new_entry document_id owner offset (text ∷ chunks) zero =
    some (chunk_meta document_id owner offset text)
new_entry document_id owner offset (text ∷ chunks) (suc k) =
    new_entry document_id owner (suc offset) chunks k

new_entry_first :
    (document_id owner : Text) (offset start i : ℕ) (text : Text) (chunks : List Text)
    → start ≡ i
    → new_entry document_id owner offset (text ∷ chunks) (i - start)
      ≡ some (chunk_meta document_id owner offset text)
new_entry_first document_id owner offset start i text chunks h =
    let e : i - start ≡ 0 = omega arith in rw e

new_entry_later :
    (document_id owner : Text) (offset start i : ℕ) (text : Text) (chunks : List Text)
    → start < i
    → new_entry document_id owner offset (text ∷ chunks) (i - start)
      ≡ new_entry document_id owner (suc offset) chunks (i - suc start)
new_entry_later document_id owner offset start i text chunks h =
    let e : i - start ≡ suc (i - suc start) = omega arith in rw e

pub lookup-tag_all :
    (document_id owner : Text) (offset start i : ℕ) (chunks : List Text) (d : Dict ℕ Meta)
    → lookup i (tag_all document_id owner offset (arange start (length chunks)) chunks d) ≡ (
        if in_range start (length chunks) i
        then new_entry document_id owner offset chunks (i - start)
        else lookup i d)
unfolding tag_all
lookup-tag_all document_id owner offset start i [] d = ground arith
lookup-tag_all document_id owner offset start i (text ∷ chunks) d = ground (
  arith,
  lookup-tag_all document_id owner (suc offset) (suc start) i chunks
      (insert start (chunk_meta document_id owner offset text) d),
  lookup-insert start i (chunk_meta document_id owner offset text) d,
  new_entry_first document_id owner offset start i text chunks,
  new_entry_later document_id owner offset start i text chunks,
)
