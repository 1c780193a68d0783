-- ===== src/AiWorker/Tasks/Searchable.antt =====
-- What a search finds of a document, once its task has ended.
use ai_document_analysis.Prelude.{
  ℕ, ◌≤◌, ◌<◌, ◌≡◌, ◌≢◌, ap, ◌∙◌, true, Option, none, List, [], Text, nat-Eq, length,
}
use ai_document_analysis.Prelude.Order.{is_in}
use ai_document_analysis.AiWorker.FaissStore.{mtimes, is_wanted, search_store}
use ai_document_analysis.AiWorker.FaissStore.Interface.{Faiss}
use ai_document_analysis.AiWorker.FaissStore.Types.{Meta, Files, Store, Hit, Outcome, returned}
use ai_document_analysis.AiWorker.FaissStore.Found.{Finds, search_store-Finds}
use ai_document_analysis.AiWorker.FaissStore.Processes.{
  HasFiles, IsSound, add-Leaves, delete_document-Leaves,
}
use ai_document_analysis.AiWorker.FaissStore.Saved.{
  IsSaved, add-IsSaved, delete_document-IsSaved, differ-same_mtimes, current_texts-reader,
}
use ai_document_analysis.AiWorker.Tasks.Keeps.{deliver-Keeps}
use ai_document_analysis.Shared.Json.Codec.{Codec}
use ai_document_analysis.AiWorker.Tasks.{Worker, Outside, deliver}
use ai_document_analysis.AiWorker.Tasks.Retries.{IsGood, IsWaiting, deliver-IsDone}

module _ (C : Codec) (F : Faiss) (upload_dir : Text) (message_of : Outcome ℕ → Text) where
  open F use {Index, Vector, Score}

  -- What every delivery keeps: the worker's store and that of a reader are in step with the files,
  -- and the worker's changes are in them.
  AreInStep : Store Index → Store Index → Files Index → Type 0
  AreInStep reader s files =
      IsSound F s files
      × HasFiles F reader.loaded_mtimes files.index_file files.metadata_file
      × IsSaved F s files

  deliver-AreInStep :
      (left : ℕ) (outside : ℕ → Outside Vector) (w : Worker Index) (reader : Store Index)
      → AreInStep reader w.store w.files
      → let w' = (deliver C F upload_dir message_of left outside w).1 in
        AreInStep reader w'.store w'.files
  unfolding AreInStep
  deliver-AreInStep left outside w reader h =
      deliver-Keeps C F upload_dir message_of (AreInStep reader)
        (λ t u id owner s files (sound, read, saved).
          let left = delete_document-Leaves F t u id owner s files sound in
          (left.sound, left.others _ read, delete_document-IsSaved F t u id owner s files saved))
        (λ t u id chunks vectors owner s files (sound, read, saved).
          let left = add-Leaves F t u id chunks vectors owner s files sound in
          (left.sound, left.others _ read, add-IsSaved F t u id chunks vectors owner s files saved))
        left outside w h

  -- A document whose task meets nothing that fails after `k` retries is searchable in the end, in
  -- another process, as the API, whose store was in step with the files before, and sees by the file
  -- times that it has to read them: each chunk of the sidecar is found there by every search of the
  -- owner that asks for this document, unless `top_k` other chunks are.
  pub deliver-Finds :
      (id owner : Text) (chunks : List Text) (k left : ℕ) (outside : ℕ → Outside Vector)
      (w : Worker Index) (reader : Store Index) (vectors : List Vector) (text : Text)
      (query : Vector) (top_k : ℕ) (docs : Option (List Text))
      → k ≤ left
      → owner ≢ []
      → ((j : ℕ) → j < k → (outside j).publish_failed_raises ≡ none)
      → IsGood C F upload_dir message_of (outside k) chunks vectors
      → IsWaiting C F upload_dir message_of id owner chunks w
      → IsSaved F w.store w.files
      → IsSound F reader w.files
      → is_in text chunks ≡ true
      → ((meta : Meta) → meta.document_id ≡ id → is_wanted docs meta ≡ true)
      → let w' = (deliver C F upload_dir message_of left outside w).1 in
        reader.loaded_mtimes ≢ mtimes F w'.files
        → (hits : List (Hit Score)) × ((search_store F query owner top_k docs reader w'.files).0
            ≡ returned hits)
          × (length hits < top_k → Finds F id owner text hits)
  unfolding AreInStep
  deliver-Finds id owner chunks k left outside w reader vectors text query top_k docs le owned
        reached good waiting saved in_step there asked stale =
      let w' : Worker Index = (deliver C F upload_dir message_of left outside w).1 in
      let (few, done) =
        deliver-IsDone C F upload_dir message_of id owner chunks k left outside w vectors le owned
          reached good waiting in
      let (sound, read, saved') =
        deliver-AreInStep left outside w reader (waiting.sound, in_step.saved, saved) in
      search_store-Finds F id owner text query top_k docs reader w'.files owned
        (record { consistent = in_step.consistent; saved = read })
        (current_texts-reader F id owner text w'.store reader w'.files.index_file
          w'.files.metadata_file saved' (differ-same_mtimes F _ _ stale)
          (ap (is_in text) done.exact ∙ there))
        asked
