-- ===== src/AiWorker/FaissStore/Returned.antt =====
-- What a process that deletes a document's chunks and adds others is left with, judged by whether
-- the calls returned.
use ai_document_analysis.Prelude.{
  ℕ, ◌≡◌, ◌≢◌, sym, ap, subst, ◌∙◌, inl, inr, false, List, [], ◌∷◌, Text, nat_eq, nat_eq_iff,
  length, arith, Bool-cases,
}
use ai_document_analysis.AiWorker.FaissStore.{
  arange, reload_if_stale, add_loaded, add, delete_document,
}
use ai_document_analysis.AiWorker.FaissStore.Interface.{Faiss}
use ai_document_analysis.AiWorker.FaissStore.Ids.{length-arange}
use ai_document_analysis.AiWorker.FaissStore.Consistency.{added}
use ai_document_analysis.AiWorker.FaissStore.Chunks.{texts_of}
use ai_document_analysis.AiWorker.FaissStore.Processes.{IsSound}
use ai_document_analysis.AiWorker.FaissStore.Reindex.{
  reload-save, reload-reload, add_loaded-IsIndexed, IsWithout, delete_document-Deletes,
}
use ai_document_analysis.AiWorker.FaissStore.Types.{Files, Store, returned}

module _ (F : Faiss) where
  open F use {Vector, Index, add_with_ids, ids-add, add_refused}

  -- The texts of a document that a process finds when it reads the files again.
  abbrev pub current_texts : Text → Text → Store Index → Files Index → List Text
  current_texts document_id owner s files =
      texts_of document_id owner (reload_if_stale F files s).metadata

  delete_document-known :
      (t u : ℕ) (document_id owner : Text) (s : Store Index) (files : Files Index) (n : ℕ)
      → (delete_document F t u document_id owner s files).0 ≡ returned n
      → owner ≢ []
  unfolding delete_document
  delete_document-known t u document_id [] s files n e same = cc
  delete_document-known t u document_id (c ∷ owner) s files n e same = cc

  unpaired-ids :
      (start : ℕ) (chunks : List Text) (vectors : List Vector)
      → nat_eq (length vectors) (length chunks) ≡ false
      → length vectors ≢ length (arange start (length chunks))
  unpaired-ids start chunks vectors unpaired e =
      cc (unpaired, (nat_eq_iff _ _).1 (e ∙ length-arange start (length chunks)))

  add_loaded-exact :
      (t u : ℕ) (document_id : Text) (chunks : List Text) (vectors : List Vector) (owner : Text)
      (s₀ s : Store Index) (files : Files Index) (m : ℕ)
      → IsWithout F document_id owner s₀ s
      → let r = add_loaded F t u document_id chunks vectors owner s files in
        r.0 ≡ returned m → texts_of document_id owner r.1.metadata ≡ chunks
  unfolding add_loaded
  add_loaded-exact t u document_id chunks vectors owner s₀ s files m w e =
      elim (Bool-cases (nat_eq (length vectors) (length chunks))) [
        | inl paired ↦
            (add_loaded-IsIndexed F t u document_id chunks vectors owner s₀ s files
              ((nat_eq_iff _ _).0 paired) w).exact
        | inr unpaired ↦
            let refused =
              add_refused s.index vectors (arange s.next_id (length chunks))
                (unpaired-ids s.next_id chunks vectors unpaired) in
            ground (arith, e, refused)
      ]

  add_loaded-current :
      (t u : ℕ) (document_id : Text) (chunks : List Text) (vectors : List Vector) (owner : Text)
      (s : Store Index) (files : Files Index)
      → reload_if_stale F files s ≡ s
      → let r = add_loaded F t u document_id chunks vectors owner s files in
        reload_if_stale F r.2 r.1 ≡ r.1
  unfolding add_loaded
  add_loaded-current t u document_id chunks vectors owner s files current =
      elim (Bool-cases (nat_eq (length vectors) (length chunks))) [
        | inl paired ↦
            let (index, e, grown) =
              ids-add s.index vectors (arange s.next_id (length chunks))
                ((nat_eq_iff _ _).0 paired ∙ sym (length-arange s.next_id (length chunks))) in
            rw (e, add_loaded) (reload-save F t u (added F document_id chunks owner index s) files)
        | inr unpaired ↦
            rw
              (
                add_refused s.index vectors (arange s.next_id (length chunks))
                    (unpaired-ids s.next_id chunks vectors unpaired),
                add_loaded,
              )
              current
      ]

  add-exact :
      (t u : ℕ) (document_id : Text) (chunks : List Text) (vectors : List Vector) (owner : Text)
      (s₀ s : Store Index) (files : Files Index) (m : ℕ)
      → reload_if_stale F files s ≡ s
      → IsWithout F document_id owner s₀ s
      → let r = add F t u document_id chunks vectors owner s files in
        r.0 ≡ returned m → current_texts document_id owner r.1 r.2 ≡ chunks
  unfolding add
  add-exact t u document_id chunks vectors [] s₀ s files m current w e = cc
  add-exact t u document_id [] vectors (c ∷ owner) s₀ s files m current w e =
      ap (λ s'. texts_of document_id (c ∷ owner) s'.metadata) current ∙ w.gone
  add-exact t u document_id (x ∷ chunks) vectors (c ∷ owner) s₀ s files m current w e =
      let s₁ : Store Index = reload_if_stale F files s in
      let w₁ : IsWithout F document_id (c ∷ owner) s₀ s₁ =
        subst (IsWithout F document_id (c ∷ owner) s₀) (sym current) w in
      ap (λ s'. texts_of document_id (c ∷ owner) s'.metadata)
        (add_loaded-current t u document_id (x ∷ chunks) vectors (c ∷ owner) s₁ files
          (reload-reload F files s))
      ∙ add_loaded-exact t u document_id (x ∷ chunks) vectors (c ∷ owner) s₀ s₁ files m w₁ e

  -- Where both calls return, the document's chunks are those given.
  pub reindex-exact :
      (t u t' u' : ℕ) (document_id : Text) (chunks : List Text) (vectors : List Vector)
      (owner : Text) (s : Store Index) (files : Files Index) (n m : ℕ)
      → IsSound F s files
      → let d = delete_document F t u document_id owner s files in
        let r = add F t' u' document_id chunks vectors owner d.1 d.2 in
        d.0 ≡ returned n → r.0 ≡ returned m → current_texts document_id owner r.1 r.2 ≡ chunks
  reindex-exact t u t' u' document_id chunks vectors owner s files n m h deleted added =
      let d =
        delete_document-Deletes F t u document_id owner s files
          (delete_document-known t u document_id owner s files n deleted) h in
      add-exact t' u' document_id chunks vectors owner (reload_if_stale F files s) _ _ m d.current
        d.without added
