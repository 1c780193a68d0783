-- ===== src/AiWorker/FaissStore/Consistency.antt =====
-- The index and the metadata agree, and `add`, `delete_document` and reloading keep it so.
use ai_document_analysis.Prelude.{
  ℕ, zero, suc, ◌+◌, ◌-◌, ◌≤◌, ◌<◌, ◌≡◌, refl, Bool, true, false, not, Option, none, some, List, [],
  ◌∷◌, ◌++◌, Text, nat-Eq, length, arith, if◌then◌else◌,
}
use ai_document_analysis.Prelude.Dict.{lookup}
use ai_document_analysis.AiWorker.FaissStore.{arange, tag_all, matching_ids, erase_all}
use ai_document_analysis.AiWorker.FaissStore.Interface.{Faiss, count, has}
use ai_document_analysis.AiWorker.FaissStore.Ids.{
  IsDistinct, erase_all-IsDistinct, lookup-erase_all, matched, one_if, count-matching_ids,
  count-filter, count-append, count-arange,
}
use ai_document_analysis.AiWorker.FaissStore.Chunks.{tag_all-IsDistinct, new_entry, lookup-tag_all}
use ai_document_analysis.AiWorker.FaissStore.Types.{Store}

abbrev pub is_some {ℓ} : {A : Type ℓ} → Option A → Bool
is_some none = false
is_some (some a) = true

is_some-new_entry :
    (document_id owner : Text) (offset : ℕ) (chunks : List Text) (k : ℕ)
    → k < length chunks
    → is_some (new_entry document_id owner offset chunks k) ≡ true
is_some-new_entry document_id owner offset [] k h = absurd (omega arith)
is_some-new_entry document_id owner offset (text ∷ chunks) zero h = refl
is_some-new_entry document_id owner offset (text ∷ chunks) (suc k) h =
    is_some-new_entry document_id owner (suc offset) chunks k (omega arith)

module _ (F : Faiss) where
  open F use {
    Vector, Index, create, add_with_ids, remove_ids, ids, ids-create, ids-add, add_refused,
    ids-remove,
  }

  -- Each id has one entry and one vector, or neither, and no id from `next_id` on is in use.
  pub record IsConsistent (s : Store Index) : Type 0 where
    pub distinct : IsDistinct s.metadata
    pub fresh : (i : ℕ) → s.next_id ≤ i → lookup i s.metadata ≡ none
    pub indexed : (i : ℕ) → count i (ids s.index) ≡ one_if (is_some (lookup i s.metadata))

  -- The store in memory after the body of `delete_document`.
  abbrev pub deleted : Text → Text → Store Index → Store Index
  deleted document_id owner s =
      let cids = matching_ids document_id owner s.metadata in
      record s { index = remove_ids s.index cids; metadata = erase_all cids s.metadata }

  pub lookup-deleted :
      (document_id owner : Text) (s : Store Index) (i : ℕ)
      → IsDistinct s.metadata
      → lookup i (deleted document_id owner s).metadata
        ≡ (if matched document_id owner (lookup i s.metadata) then none else lookup i s.metadata)
  lookup-deleted document_id owner s i h = ground (
    arith,
    lookup-erase_all i (matching_ids document_id owner s.metadata) s.metadata,
    count-matching_ids document_id owner i s.metadata h,
  )

  count-deleted :
      (document_id owner : Text) (s : Store Index) (i : ℕ)
      → IsDistinct s.metadata
      → count i (ids (deleted document_id owner s).index)
        ≡ (if matched document_id owner (lookup i s.metadata) then 0 else count i (ids s.index))
  count-deleted document_id owner s i h =
      let cids = matching_ids document_id owner s.metadata in
      rw (ids-remove s.index cids) (
        ground (
          arith,
          count-filter (λ j. not (has cids j)) i (ids s.index),
          count-matching_ids document_id owner i s.metadata h,
        ))

  pub deleted-IsConsistent :
      (document_id owner : Text) (s : Store Index)
      → IsConsistent s
      → IsConsistent (deleted document_id owner s)
  deleted-IsConsistent document_id owner s h = record {
    distinct = erase_all-IsDistinct _ s.metadata h.distinct;
    fresh =
        λ i bound. ground (arith, lookup-deleted document_id owner s i h.distinct, h.fresh i bound);
    indexed = λ i. ground (
      arith,
      lookup-deleted document_id owner s i h.distinct,
      count-deleted document_id owner s i h.distinct,
      h.indexed i,
    );
  }

  -- The store in memory after the body of `add`, where FAISS made the index `index`.
  abbrev pub added : Text → List Text → Text → Index → Store Index → Store Index
  added document_id chunks owner index s = record s {
    index = index;
    metadata = tag_all document_id owner 0 (arange s.next_id (length chunks)) chunks s.metadata;
    next_id = s.next_id + length chunks;
  }

  pub added-IsConsistent :
      (document_id : Text) (chunks : List Text) (owner : Text) (index : Index) (s : Store Index)
      → ids index ≡ ids s.index ++ arange s.next_id (length chunks)
      → IsConsistent s
      → IsConsistent (added document_id chunks owner index s)
  added-IsConsistent document_id chunks owner index s e h = record {
    distinct = tag_all-IsDistinct document_id owner 0 _ chunks s.metadata h.distinct;
    fresh = λ i bound.
        ground (arith, lookup-tag_all document_id owner 0 s.next_id i chunks s.metadata, h.fresh i);
    indexed = λ i.
        rw (e, count-append i (ids s.index) (arange s.next_id (length chunks)))
          (ground (
            arith,
            lookup-tag_all document_id owner 0 s.next_id i chunks s.metadata,
            count-arange i s.next_id (length chunks),
            is_some-new_entry document_id owner 0 chunks (i - s.next_id),
            h.indexed i,
            h.fresh i,
          ));
  }
