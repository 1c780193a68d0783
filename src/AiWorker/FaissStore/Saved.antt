-- ===== src/AiWorker/FaissStore/Saved.antt =====
-- What one process has saved another one finds, if the file times tell it to read the files.
use ai_document_analysis.Prelude.{
  ℕ, ◌≡◌, ◌≢◌, arith, refl, sym, ap, ◌∙◌, inl, inr, true, false, Option, none, some, List, [], ◌∷◌,
  Text, nat-Eq, length, is_empty, Bool-cases, Option-cases,
}
use ai_document_analysis.Prelude.Dict.{Dict}
use ai_document_analysis.Prelude.Order.{is_in}
use ai_document_analysis.AiWorker.FaissStore.{
  arange, matching_ids, same_mtimes, mtimes, save, reload_if_stale, add_loaded, delete_loaded, add,
  delete_document,
}
use ai_document_analysis.AiWorker.FaissStore.Interface.{Faiss}
use ai_document_analysis.AiWorker.FaissStore.Types.{
  Meta, MetadataFile, valid, corrupt, Files, Store,
}
use ai_document_analysis.AiWorker.FaissStore.Consistency.{added, deleted}
use ai_document_analysis.AiWorker.FaissStore.Chunks.{texts_of}
use ai_document_analysis.AiWorker.FaissStore.Reindex.{reload-reload, reload-save}
use ai_document_analysis.AiWorker.FaissStore.Returned.{current_texts}

abbrev pub in_file : Option (MetadataFile × ℕ) → Dict ℕ Meta
in_file none = []
in_file (some (valid metadata next_id, u)) = metadata
in_file (some (corrupt, u)) = []

module _ (F : Faiss) where
  open F use {Vector, Index}

  -- What the process works on, once it has looked at the files, is in the files.
  pub record IsSaved (s : Store Index) (files : Files Index) : Type 0 where
    pub same : (reload_if_stale F files s).metadata ≡ in_file files.metadata_file

  save-IsSaved :
      (t u : ℕ) (s : Store Index) (files : Files Index)
      → IsSaved (save F t u s files).0 (save F t u s files).1
  unfolding save
  save-IsSaved t u s files = record { same = ap (λ s'. s'.metadata) (reload-save F t u s files) }

  reload-IsSaved :
      (s : Store Index) (files : Files Index)
      → IsSaved s files
      → IsSaved (reload_if_stale F files s) files
  reload-IsSaved s files h = record {
    same = ap (λ s'. s'.metadata) (reload-reload F files s) ∙ h.same;
  }

  add_loaded-IsSaved :
      (t u : ℕ) (document_id : Text) (chunks : List Text) (vectors : List Vector) (owner : Text)
      (s : Store Index) (files : Files Index)
      → IsSaved s files
      → let r = add_loaded F t u document_id chunks vectors owner s files in IsSaved r.1 r.2
  unfolding add_loaded
  add_loaded-IsSaved t u document_id chunks vectors owner s files h =
      elim (Option-cases (F.add_with_ids s.index vectors (arange s.next_id (length chunks)))) [
        | inl refused ↦ rw (refused, add_loaded) h
        | inr (index, done) ↦
            rw (done, add_loaded)
              (save-IsSaved t u (added F document_id chunks owner index s) files)
      ]

  pub add-IsSaved :
      (t u : ℕ) (document_id : Text) (chunks : List Text) (vectors : List Vector) (owner : Text)
      (s : Store Index) (files : Files Index)
      → IsSaved s files
      → let r = add F t u document_id chunks vectors owner s files in IsSaved r.1 r.2
  unfolding add
  add-IsSaved t u document_id chunks vectors [] s files h = h
  add-IsSaved t u document_id [] vectors (c ∷ owner) s files h = h
  add-IsSaved t u document_id (text ∷ chunks) vectors (c ∷ owner) s files h =
      add_loaded-IsSaved t u document_id (text ∷ chunks) vectors (c ∷ owner) _ files
        (reload-IsSaved s files h)

  delete_loaded-IsSaved :
      (t u : ℕ) (document_id owner : Text) (s : Store Index) (files : Files Index)
      → IsSaved s files
      → let r = delete_loaded F t u document_id owner s files in IsSaved r.1 r.2
  unfolding delete_loaded
  delete_loaded-IsSaved t u document_id owner s files h =
      elim (Bool-cases (is_empty (matching_ids document_id owner s.metadata))) [
        | inl nothing ↦ rw nothing h
        | inr some_ids ↦ rw some_ids (save-IsSaved t u (deleted F document_id owner s) files)
      ]

  pub delete_document-IsSaved :
      (t u : ℕ) (document_id owner : Text) (s : Store Index) (files : Files Index)
      → IsSaved s files
      → let r = delete_document F t u document_id owner s files in IsSaved r.1 r.2
  unfolding delete_document
  delete_document-IsSaved t u document_id [] s files h = h
  delete_document-IsSaved t u document_id (c ∷ owner) s files h =
      delete_loaded-IsSaved t u document_id (c ∷ owner) _ files (reload-IsSaved s files h)

  pub differ-same_mtimes : (p q : ℕ × ℕ) → q ≢ p → same_mtimes p q ≡ false
  differ-same_mtimes (a, b) (c, d) h = ground arith

  reads_file :
      (reader : Store Index) (i : Option (Index × ℕ)) (file : MetadataFile) (u : ℕ)
      → let files : Files Index = record { index_file = i; metadata_file = some (file, u) } in
        same_mtimes (mtimes F files) reader.loaded_mtimes ≡ false
        → (reload_if_stale F files reader).metadata ≡ in_file (some (file, u))
  unfolding reload_if_stale
  reads_file reader i (valid metadata next_id) u stale = rw stale refl
  reads_file reader i corrupt u stale = rw stale refl

  -- A text that a document has for the process that saved it, it has for each process that last saw
  -- the files at other times.
  pub current_texts-reader :
      (id owner text : Text) (s reader : Store Index) (i : Option (Index × ℕ))
      (m : Option (MetadataFile × ℕ))
      → let files : Files Index = record { index_file = i; metadata_file = m } in
        IsSaved s files
        → same_mtimes (mtimes F files) reader.loaded_mtimes ≡ false
        → is_in text (current_texts F id owner s files) ≡ true
        → is_in text (current_texts F id owner reader files) ≡ true
  unfolding texts_of
  current_texts-reader id owner text s reader i none h stale there =
      let empty = ap (λ d. is_in text (texts_of id owner d)) h.same in cc (empty, there)
  current_texts-reader id owner text s reader i (some (file, u)) h stale there =
      ap (λ d. is_in text (texts_of id owner d)) (reads_file reader i file u stale ∙ sym h.same)
      ∙ there
