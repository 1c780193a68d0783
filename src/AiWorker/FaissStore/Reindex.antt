-- ===== src/AiWorker/FaissStore/Reindex.antt =====
-- `delete_document` removes exactly the chunks of one document of one owner, and `add` after it,
-- as `process_document` calls them, makes that document's chunks be those given.
use ai_document_analysis.Prelude.{
  ℕ, ◌≡◌, ◌≢◌, refl, sym, ap, ◌∙◌, inl, inr, true, false, Option, none, some, List, [], ◌∷◌, ◌++◌,
  Text, nat-Eq, length, is_empty, arith, Bool-cases,
}
use ai_document_analysis.Prelude.Dict.{Dict, lookup}
use ai_document_analysis.AiWorker.FaissStore.{
  arange, is_chunk_of, matching_ids, mtimes, same_mtimes, save, reload_if_stale, add_loaded,
  delete_loaded, add, delete_document,
}
use ai_document_analysis.AiWorker.FaissStore.Interface.{Faiss}
use ai_document_analysis.AiWorker.FaissStore.Ids.{matched, length-arange}
use ai_document_analysis.AiWorker.FaissStore.Chunks.{
  texts_of, texts_of-eq-nil, texts_of-tag_all, lookup-tag_all,
}
use ai_document_analysis.AiWorker.FaissStore.Consistency.{
  IsConsistent, deleted, lookup-deleted, deleted-IsConsistent,
}
use ai_document_analysis.AiWorker.FaissStore.Processes.{IsSound, reload-IsSound}
use ai_document_analysis.AiWorker.FaissStore.Types.{
  Meta, MetadataFile, valid, corrupt, Files, Store, Outcome, returned,
}

length-matching_ids :
    (document_id owner : Text) (d : Dict ℕ Meta)
    → length (matching_ids document_id owner d) ≡ length (texts_of document_id owner d)
unfolding matching_ids texts_of
length-matching_ids document_id owner [] = refl
length-matching_ids document_id owner ((i, meta) ∷ d) =
    ground (arith, length-matching_ids document_id owner d)

module _ (F : Faiss) where
  open F use {Vector, Index, add_with_ids, ids, ids-add}

  -- A reload, when nothing has been written since the last one, changes nothing.
  same-reload :
      (i : Option (Index × ℕ)) (m : Option (MetadataFile × ℕ)) (s : Store Index)
      → let files : Files Index = record { index_file = i; metadata_file = m } in
        same_mtimes (mtimes F files) (reload_if_stale F files s).loaded_mtimes ≡ true
  unfolding reload_if_stale
  same-reload none none s = ground arith
  same-reload none (some (valid d n, u)) s = ground arith
  same-reload none (some (corrupt, u)) s = ground arith
  same-reload (some (x, t)) none s = ground arith
  same-reload (some (x, t)) (some (valid d n, u)) s = ground arith
  same-reload (some (x, t)) (some (corrupt, u)) s = ground arith

  reload_unchanged :
      (files : Files Index) (s : Store Index)
      → same_mtimes (mtimes F files) s.loaded_mtimes ≡ true
      → reload_if_stale F files s ≡ s
  unfolding reload_if_stale
  reload_unchanged files s e = rw e

  pub reload-reload :
      (files : Files Index) (s : Store Index)
      → reload_if_stale F files (reload_if_stale F files s) ≡ reload_if_stale F files s
  reload-reload files s =
      reload_unchanged files (reload_if_stale F files s)
        (same-reload files.index_file files.metadata_file s)

  pub reload-save :
      (t u : ℕ) (s : Store Index) (files : Files Index)
      → let (s', files') = save F t u s files in reload_if_stale F files' s' ≡ s'
  unfolding save
  reload-save t u s files = reload_unchanged _ _ (ground arith)

  -- What `delete_document` leaves in memory of the reloaded store `s`, up to the file times.
  pub record IsWithout (document_id owner : Text) (s s' : Store Index) : Type 0 where
    pub consistent : IsConsistent F s'
    pub gone : texts_of document_id owner s'.metadata ≡ []
    pub kept :
        (i : ℕ)
        → matched document_id owner (lookup i s.metadata) ≡ false
        → lookup i s'.metadata ≡ lookup i s.metadata

  deleted-IsWithout :
      (document_id owner : Text) (s : Store Index)
      → IsConsistent F s
      → IsWithout document_id owner s (deleted F document_id owner s)
  deleted-IsWithout document_id owner s h =
      let after = deleted-IsConsistent F document_id owner s h in
      record {
        consistent = after;
        gone =
            texts_of-eq-nil document_id owner _ after.distinct
              (λ i. ground (arith, lookup-deleted F document_id owner s i h.distinct));
        kept = λ i other. ground (arith, lookup-deleted F document_id owner s i h.distinct);
      }

  -- How a call of `delete_document` on the reloaded store `s` ends.
  pub record Deletes (document_id owner : Text) (s : Store Index)
      (r : Outcome ℕ × Store Index × Files Index) : Type 0 where
    pub counted : r.0 ≡ returned (length (texts_of document_id owner s.metadata))
    pub without : IsWithout document_id owner s r.1
    pub current : reload_if_stale F r.2 r.1 ≡ r.1

  nothing-IsWithout :
      (document_id owner : Text) (s : Store Index)
      → is_empty (matching_ids document_id owner s.metadata) ≡ true
      → IsConsistent F s
      → (texts_of document_id owner s.metadata ≡ []) × IsWithout document_id owner s s
  nothing-IsWithout document_id owner s e h =
      let none_left : texts_of document_id owner s.metadata ≡ [] =
        ground (arith, length-matching_ids document_id owner s.metadata) in
      (none_left, record { consistent = h; gone = none_left; kept = λ i other. refl })

  delete_loaded-Deletes :
      (t u : ℕ) (document_id owner : Text) (s : Store Index) (files : Files Index)
      → reload_if_stale F files s ≡ s
      → IsConsistent F s
      → Deletes document_id owner s (delete_loaded F t u document_id owner s files)
  unfolding delete_loaded
  delete_loaded-Deletes t u document_id owner s files current h =
      elim (Bool-cases (is_empty (matching_ids document_id owner s.metadata))) [
        | inl nothing ↦
            let (none_left, without) = nothing-IsWithout document_id owner s nothing h in
            rw (nothing) (record { counted = rw none_left; without = without; current = current })
        | inr some_ids ↦
            let w = deleted-IsWithout document_id owner s h in
            rw some_ids (record {
              counted = ap returned (length-matching_ids document_id owner s.metadata);
              without = record {
                consistent = record {
                  distinct = w.consistent.distinct;
                  fresh = w.consistent.fresh;
                  indexed = w.consistent.indexed;
                };
                gone = w.gone;
                kept = w.kept;
              };
              current = reload-save t u (deleted F document_id owner s) files;
            })
      ]

  -- For an owner with an id `delete_document` returns how many chunks of the document it removed.
  -- Afterwards the owner has none of that document, every other entry is as it was, and the
  -- store still agrees with its index.
  pub delete_document-Deletes :
      (t u : ℕ) (document_id owner : Text) (s : Store Index) (files : Files Index)
      → owner ≢ []
      → IsSound F s files
      → Deletes document_id owner
          (reload_if_stale F files s)
          (delete_document F t u document_id owner s files)
  unfolding delete_document
  delete_document-Deletes t u document_id [] s files known h = absurd (known refl)
  delete_document-Deletes t u document_id (c ∷ owner) s files known h =
      delete_loaded-Deletes t u document_id (c ∷ owner) (reload_if_stale F files s) files
        (reload-reload files s) (reload-IsSound F s files h).consistent

  -- The store in memory after `add`, when the owner had nothing of the document before.
  pub record IsIndexed (document_id owner : Text) (chunks : List Text) (s : Store Index)
      (r : Outcome ℕ × Store Index × Files Index) : Type 0 where
    pub counted : r.0 ≡ returned (length chunks)
    pub exact : texts_of document_id owner r.1.metadata ≡ chunks
    pub kept :
        (i : ℕ) (meta : Meta)
        → lookup i s.metadata ≡ some meta
        → is_chunk_of document_id owner meta ≡ false
        → lookup i r.1.metadata ≡ some meta

  pub add_loaded-IsIndexed :
      (t u : ℕ) (document_id : Text) (chunks : List Text) (vectors : List Vector) (owner : Text)
      (s₀ s : Store Index) (files : Files Index)
      → length vectors ≡ length chunks
      → IsWithout document_id owner s₀ s
      → IsIndexed document_id owner chunks s₀
          (add_loaded F t u document_id chunks vectors owner s files)
  unfolding save
  add_loaded-IsIndexed t u document_id chunks vectors owner s₀ s files paired w =
      let (index, e, grown) =
        ids-add s.index vectors (arange s.next_id (length chunks))
          (paired ∙ sym (length-arange s.next_id (length chunks))) in
      unfold add_loaded in
      rw (e, add_loaded)
        (record {
          counted = refl;
          exact =
              texts_of-tag_all document_id owner 0 s.next_id chunks s.metadata w.consistent.fresh
              ∙ ap (λ ts. ts ++ chunks) w.gone;
          kept = λ i meta stored other. ground (
            arith,
            lookup-tag_all document_id owner 0 s.next_id i chunks s.metadata,
            w.consistent.fresh i,
            w.kept i,
          );
        })

  -- `add` after `delete_document` on the reloaded store, as `process_document` calls them.
  abbrev pub reindex :
      ℕ
      → ℕ
      → ℕ
      → ℕ
      → Text
      → List Text
      → List Vector
      → Text
      → Store Index
      → Files Index
      → Outcome ℕ × Store Index × Files Index
  reindex t u t' u' document_id chunks vectors owner s files =
      let (r, s', files') = delete_document F t u document_id owner s files in
      add F t' u' document_id chunks vectors owner s' files'

  add-IsIndexed :
      (t u : ℕ) (document_id : Text) (chunks : List Text) (vectors : List Vector) (owner : Text)
      (s₀ s : Store Index) (files : Files Index)
      → owner ≢ []
      → length vectors ≡ length chunks
      → reload_if_stale F files s ≡ s
      → IsWithout document_id owner s₀ s
      → IsIndexed document_id owner chunks s₀ (add F t u document_id chunks vectors owner s files)
  unfolding add
  add-IsIndexed t u document_id chunks vectors [] s₀ s files known paired current w =
      absurd (known refl)
  add-IsIndexed t u document_id [] vectors (c ∷ owner) s₀ s files known paired current w = record {
    counted = refl;
    exact = w.gone;
    kept = λ i meta stored other. ground (arith, w.kept i);
  }
  add-IsIndexed t u document_id (x ∷ chunks) vectors (c ∷ owner) s₀ s files known paired current w =
      rw current
        (add_loaded-IsIndexed t u document_id (x ∷ chunks) vectors (c ∷ owner) s₀ s files paired w)

  -- Deleting a document's chunks and adding new ones, with one vector for each, leaves exactly the
  -- new chunks, in their order, whatever was indexed for the document before; so any repetition
  -- of the task leaves the same. Every entry of another document or owner is as it was.
  pub reindex-IsIndexed :
      (t u t' u' : ℕ) (document_id : Text) (chunks : List Text) (vectors : List Vector)
      (owner : Text) (s : Store Index) (files : Files Index)
      → owner ≢ []
      → length vectors ≡ length chunks
      → IsSound F s files
      → IsIndexed document_id owner chunks
          (reload_if_stale F files s)
          (reindex t u t' u' document_id chunks vectors owner s files)
  reindex-IsIndexed t u t' u' document_id chunks vectors owner s files known paired h =
      let d = delete_document-Deletes t u document_id owner s files known h in
      add-IsIndexed t' u' document_id chunks vectors owner (reload_if_stale F files s) _ _ known
        paired d.current d.without
