-- ===== src/AiWorker/FaissStore/Processes.antt =====
-- What a whole call of one process leaves for the others that share its files, if none of their
-- calls overlaps with it.
use ai_document_analysis.Prelude.{
  ℕ, ◌≡◌, inl, inr, true, Option, none, some, List, [], ◌∷◌, Text, nat-Eq, nat_eq, length, is_empty,
  arith, Bool-cases, nat_eq_iff,
}
use ai_document_analysis.AiWorker.FaissStore.{
  arange, matching_ids, same_mtimes, save, reload_if_stale, add_loaded, delete_loaded, add,
  delete_document,
}
use ai_document_analysis.AiWorker.FaissStore.Interface.{Faiss}
use ai_document_analysis.AiWorker.FaissStore.Consistency.{
  IsConsistent, deleted, deleted-IsConsistent, added, added-IsConsistent,
}
use ai_document_analysis.AiWorker.FaissStore.Types.{MetadataFile, valid, corrupt, Files, Store}

module _ (F : Faiss) where
  open F use {Vector, Index, create, add_with_ids, ids, ids-create, ids-add, add_refused}

  -- What a process that saw `loaded` may find on disk: nothing, if it saw nothing, or the files of
  -- a store that agrees with itself.
  abbrev pub HasFiles : ℕ × ℕ → Option (Index × ℕ) → Option (MetadataFile × ℕ) → Type 0
  HasFiles loaded none none = loaded ≡ (0, 0)
  HasFiles loaded (some (index, t)) (some (valid metadata next_id, u)) =
      IsConsistent F
        (record { next_id = next_id; metadata = metadata; index = index; loaded_mtimes = (t, u) })
  HasFiles loaded _ _ = ⊥

  -- A process whose store agrees with itself, beside files that do.
  pub record IsSound (s : Store Index) (files : Files Index) : Type 0 where
    pub consistent : IsConsistent F s
    pub saved : HasFiles s.loaded_mtimes files.index_file files.metadata_file

  reload-IsConsistent :
      (s : Store Index) (i : Option (Index × ℕ)) (m : Option (MetadataFile × ℕ))
      → IsConsistent F s
      → HasFiles s.loaded_mtimes i m
      → IsConsistent F (reload_if_stale F (record { index_file = i; metadata_file = m }) s)
  unfolding reload_if_stale
  reload-IsConsistent s none none h saved =
      let same : same_mtimes (0, 0) s.loaded_mtimes ≡ true = ground arith in rw same h
  reload-IsConsistent s (some (index, t)) (some (valid metadata next_id, u)) h saved =
      elim (Bool-cases (same_mtimes (t, u) s.loaded_mtimes)) [
        | inl same ↦ rw same h
        | inr stale ↦
            rw stale
              (record { distinct = saved.distinct; fresh = saved.fresh; indexed = saved.indexed })
      ]
  reload-IsConsistent s (some x) (some (corrupt, u)) h saved = absurd saved
  reload-IsConsistent s none (some y) h saved = absurd saved
  reload-IsConsistent s (some x) none h saved = absurd saved

  HasFiles-mtimes :
      (s : Store Index) (i : Option (Index × ℕ)) (m : Option (MetadataFile × ℕ))
      → HasFiles s.loaded_mtimes i m
      → HasFiles
          (reload_if_stale F (record { index_file = i; metadata_file = m }) s).loaded_mtimes
          i
          m
  unfolding reload_if_stale
  HasFiles-mtimes s none none saved =
      let same : same_mtimes (0, 0) s.loaded_mtimes ≡ true = ground arith in rw same saved
  HasFiles-mtimes s (some (index, t)) (some (valid metadata next_id, u)) saved = saved
  HasFiles-mtimes s (some x) (some (corrupt, u)) saved = absurd saved
  HasFiles-mtimes s none (some y) saved = absurd saved
  HasFiles-mtimes s (some x) none saved = absurd saved

  pub reload-IsSound :
      (s : Store Index) (files : Files Index)
      → IsSound s files
      → IsSound (reload_if_stale F files s) files
  reload-IsSound s files h = record {
    consistent = reload-IsConsistent s files.index_file files.metadata_file h.consistent h.saved;
    saved = HasFiles-mtimes s files.index_file files.metadata_file h.saved;
  }

  -- What a call of one process leaves: it is sound itself, and so is any other that was.
  pub record Leaves (files : Files Index) (s' : Store Index) (files' : Files Index) : Type 0 where
    pub sound : IsSound s' files'
    pub others :
        (loaded : ℕ × ℕ)
        → HasFiles loaded files.index_file files.metadata_file
        → HasFiles loaded files'.index_file files'.metadata_file

  same_files-Leaves :
      (s : Store Index) (files : Files Index) → IsSound s files → Leaves files s files
  same_files-Leaves s files h = record { sound = h; others = λ loaded saved. saved }

  save-Leaves :
      (t u : ℕ) (s : Store Index) (files : Files Index)
      → IsConsistent F s
      → Leaves files (save F t u s files).0 (save F t u s files).1
  unfolding save
  save-Leaves t u s files h = record {
    sound = record {
      consistent = record { distinct = h.distinct; fresh = h.fresh; indexed = h.indexed };
      saved = record { distinct = h.distinct; fresh = h.fresh; indexed = h.indexed };
    };
    others = λ loaded saved. record { distinct = h.distinct; fresh = h.fresh; indexed = h.indexed };
  }

  add_loaded-Leaves :
      (t u : ℕ) (document_id : Text) (chunks : List Text) (vectors : List Vector) (owner : Text)
      (s : Store Index) (files : Files Index)
      → IsSound s files
      → let r = add_loaded F t u document_id chunks vectors owner s files in Leaves files r.1 r.2
  unfolding add_loaded
  add_loaded-Leaves t u document_id chunks vectors owner s files h =
      elim (Bool-cases (nat_eq (length vectors) (length ids'))) [
        | inl paired ↦
            let (index, e, grown) = ids-add s.index vectors ids' ((nat_eq_iff _ _).0 paired) in
            rw (e, add_loaded)
              (save-Leaves t u (added F document_id chunks owner index s) files
                (added-IsConsistent F document_id chunks owner index s grown h.consistent))
        | inr unpaired ↦
            rw (add_refused s.index vectors ids' (λ e. cc ((nat_eq_iff _ _).1 e)), add_loaded)
              (same_files-Leaves s files h)
      ]
    where
      ids' : List ℕ
      ids' = arange s.next_id (length chunks)

  pub add-Leaves :
      (t u : ℕ) (document_id : Text) (chunks : List Text) (vectors : List Vector) (owner : Text)
      (s : Store Index) (files : Files Index)
      → IsSound s files
      → let r = add F t u document_id chunks vectors owner s files in Leaves files r.1 r.2
  unfolding add
  add-Leaves t u document_id chunks vectors [] s files h = same_files-Leaves s files h
  add-Leaves t u document_id [] vectors (c ∷ owner) s files h = same_files-Leaves s files h
  add-Leaves t u document_id (text ∷ chunks) vectors (c ∷ owner) s files h =
      add_loaded-Leaves t u document_id (text ∷ chunks) vectors (c ∷ owner)
        (reload_if_stale F files s) files (reload-IsSound s files h)

  delete_loaded-Leaves :
      (t u : ℕ) (document_id owner : Text) (s : Store Index) (files : Files Index)
      → IsSound s files
      → let r = delete_loaded F t u document_id owner s files in Leaves files r.1 r.2
  unfolding delete_loaded
  delete_loaded-Leaves t u document_id owner s files h =
      elim (Bool-cases (is_empty (matching_ids document_id owner s.metadata))) [
        | inl nothing ↦ rw nothing (same_files-Leaves s files h)
        | inr some_ids ↦ rw some_ids (
            save-Leaves t u (deleted F document_id owner s) files
              (deleted-IsConsistent F document_id owner s h.consistent))
      ]

  pub delete_document-Leaves :
      (t u : ℕ) (document_id owner : Text) (s : Store Index) (files : Files Index)
      → IsSound s files
      → let r = delete_document F t u document_id owner s files in Leaves files r.1 r.2
  unfolding delete_document
  delete_document-Leaves t u document_id [] s files h = same_files-Leaves s files h
  delete_document-Leaves t u document_id (c ∷ owner) s files h =
      delete_loaded-Leaves t u document_id (c ∷ owner) (reload_if_stale F files s) files
        (reload-IsSound s files h)
