-- ===== src/AiWorker/FaissStore/Ids.antt =====
-- Lookups and id counts under the loops of `add` and `delete_document`.
use ai_document_analysis.Prelude.{
  ℕ, zero, suc, ◌+◌, ◌≡◌, refl, ap, inl, inr, Bool, false, ◌&&◌, Option, none, some, List, [], ◌∷◌,
  ◌++◌, Text, nat-Eq, text-Eq, leb, ltb, length, filter, arith, Bool-cases, if◌then◌else◌,
}
use ai_document_analysis.Prelude.Dict.{Dict, lookup, insert, erase, lookup-insert, lookup-erase}
use ai_document_analysis.AiWorker.FaissStore.{arange, is_chunk_of, matching_ids, erase_all}
use ai_document_analysis.AiWorker.FaissStore.Interface.{count, has}
use ai_document_analysis.AiWorker.FaissStore.Types.{Meta}

-- A dict has each key once.
abbrev pub IsDistinct : Dict ℕ Meta → Type 0
IsDistinct [] = Unit
IsDistinct ((k, v) ∷ d) = (lookup k d ≡ none) × IsDistinct d

pub insert-IsDistinct :
    (k : ℕ) (v : Meta) (d : Dict ℕ Meta) → IsDistinct d → IsDistinct (insert k v d)
insert-IsDistinct k v [] h = (refl, tt)
insert-IsDistinct k v ((j, w) ∷ d) h =
    ground (arith, insert-IsDistinct k v d h.1, lookup-insert k j v d)

pub erase-IsDistinct : (k : ℕ) (d : Dict ℕ Meta) → IsDistinct d → IsDistinct (erase k d)
erase-IsDistinct k [] h = tt
erase-IsDistinct k ((j, w) ∷ d) h = ground (arith, erase-IsDistinct k d h.1, lookup-erase k j d)

pub erase_all-IsDistinct :
    (cids : List ℕ) (d : Dict ℕ Meta) → IsDistinct d → IsDistinct (erase_all cids d)
unfolding erase_all
erase_all-IsDistinct [] d h = h
erase_all-IsDistinct (cid ∷ cids) d h =
    erase_all-IsDistinct cids (erase cid d) (erase-IsDistinct cid d h)

pub lookup-erase_all :
    (i : ℕ) (cids : List ℕ) (d : Dict ℕ Meta)
    → lookup i (erase_all cids d) ≡ (if has cids i then none else lookup i d)
unfolding erase_all
lookup-erase_all i [] d = ground arith
lookup-erase_all i (cid ∷ cids) d =
    ground (arith, lookup-erase_all i cids (erase cid d), lookup-erase cid i d)

-- Whether the entry that a lookup found is a chunk of the document.
abbrev pub matched : Text → Text → Option Meta → Bool
matched document_id owner none = false
matched document_id owner (some meta) = is_chunk_of document_id owner meta

abbrev pub one_if : Bool → ℕ
one_if b = if b then 1 else 0

pub count-matching_ids :
    (document_id owner : Text) (i : ℕ) (d : Dict ℕ Meta)
    → IsDistinct d
    → count i (matching_ids document_id owner d) ≡ one_if (matched document_id owner (lookup i d))
unfolding matching_ids
count-matching_ids document_id owner i [] h = refl
count-matching_ids document_id owner i ((cid, meta) ∷ d) h =
    elim (Bool-cases (is_chunk_of document_id owner meta)) [
      | inl yes_chunk ↦ ground (arith, count-matching_ids document_id owner i d h.1)
      | inr no_chunk ↦ ground (arith, count-matching_ids document_id owner i d h.1)
    ]

pub count-filter :
    (p : ℕ → Bool) (i : ℕ) (l : List ℕ) → count i (filter p l) ≡ (if p i then count i l else 0)
count-filter p i [] = ground arith
count-filter p i (j ∷ l) = ground (arith, count-filter p i l)

pub count-append : (i : ℕ) (l r : List ℕ) → count i (l ++ r) ≡ count i l + count i r
count-append i [] r = omega arith
count-append i (j ∷ l) r = ground (arith, count-append i l r)

abbrev pub in_range : ℕ → ℕ → ℕ → Bool
in_range start size i = leb start i && ltb i (start + size)

pub count-arange : (i start size : ℕ) → count i (arange start size) ≡ one_if (in_range start size i)
count-arange i start zero = ground arith
count-arange i start (suc size) = ground (arith, count-arange i (suc start) size)

pub length-arange : (start size : ℕ) → length (arange start size) ≡ size
length-arange start zero = refl
length-arange start (suc size) = ap suc (length-arange (suc start) size)
