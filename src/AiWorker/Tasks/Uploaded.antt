-- ===== src/AiWorker/Tasks/Uploaded.antt =====
-- From an upload at document-service to a search in the API of ai-worker-service.
use ai_document_analysis.Prelude.{
  ℕ, ◌≤◌, ◌<◌, ◌≡◌, ◌≢◌, refl, ap, ◌∙◌, subst, ◌⊎◌, inr, false, true, Option, none, some, List, [],
  ◌∷◌, ◌++◌, Text, ◌==◌, text-Eq, length, All,
}
use ai_document_analysis.Prelude.Dict.{lookup}
use ai_document_analysis.Prelude.Order.{is_in}
use ai_document_analysis.Shared.Exceptions.{ok}
use ai_document_analysis.Shared.Json.Codec.{Codec}
use ai_document_analysis.DocumentService.Documents.{
  DocumentStatus, pending, processing, processed, failed, Document, File, sidecar, World, Settings,
  UploadFile, pdf_path, chunks_path, upload,
}
use ai_document_analysis.DocumentService.Documents.Upload.{
  body, HasFiles, IsUploaded, upload-IsUploaded,
}
use ai_document_analysis.AiWorker.FaissStore.{mtimes, is_wanted, search_store}
use ai_document_analysis.AiWorker.FaissStore.Interface.{Faiss}
use ai_document_analysis.AiWorker.FaissStore.Types.{Meta, Store, Hit, Outcome, returned}
use ai_document_analysis.AiWorker.FaissStore.Found.{Finds}
use ai_document_analysis.AiWorker.FaissStore.Processes.{IsSound}
use ai_document_analysis.AiWorker.FaissStore.Saved.{IsSaved}
use ai_document_analysis.AiWorker.Tasks.{Row, Worker, Outside, deliver}
use ai_document_analysis.AiWorker.Tasks.Searchable.{deliver-Finds}

-- The row of a document, as the worker reads it from the table that both services use.
abbrev pub row_of : ℕ → Document → Row
row_of updated_at d = record {
  id = d.id;
  owner_id = d.owner_id;
  status = d.status;
  error_message = d.error_message;
  chunk_count = d.chunk_count;
  updated_at = updated_at;
}

-- A model that embeds every list of texts, one vector to a text, and a broker and a Redis that can
-- be reached.
pub record IsUp {Vector : Type 0} (o : Outside Vector) : Type 0 where
  pub embeds :
      (texts : List Text)
      → (vectors : List Vector) × (o.embed_texts texts ≡ inr vectors)
        × (length vectors ≡ length texts)
  pub sends : o.send_raises ≡ none
  pub publishes : o.publish_raises ≡ none

module _ (settings : Settings) (extract_text : List ℕ → Text ⊎ (Text × ℕ)) (str : ℕ → Text)
    (id owner_id : Text) where
  abbrev chunks_file : World → Option File
  chunks_file w = lookup (chunks_path settings.upload_dir id) w.files

  -- A row with a sidecar is pending.
  pending_of :
      (status : DocumentStatus) (content : List ℕ) (d : Document) (w w' : World)
      (chunks : List Text)
      → HasFiles settings extract_text str id owner_id status content d w w'
      → chunks_file w' ≡ some (sidecar chunks)
      → (status ≡ pending) × (d.chunk_count ≡ some (length chunks)) × (w'.sent ≡ w.sent ++ id ∷ [])
  pending_of pending content d w w' chunks (cs, _, stored, counted, _, sent) there =
      let same : cs ≡ chunks = cc (stored, there) in
      (refl, counted ∙ ap (λ c. some (length c)) same, sent)
  pending_of failed content d w w' chunks (m, _, gone, _, _) there = cc (gone, there)
  pending_of processing content d w w' chunks h there = absurd h
  pending_of processed content d w w' chunks h there = absurd h

  module _ (C : Codec) (F : Faiss) (message_of : Outcome ℕ → Text) where
    open F use {Index, Vector, Score}

    -- An upload under a fresh id that leaves a sidecar returns a pending row that counts its
    -- chunks, and sends one task. Where a worker runs that task over this row and sidecar, no other
    -- call changes the vector store meanwhile, and the run after `k` retries, which must be allowed,
    -- meets nothing that fails, then every search of the owner that asks for this document finds
    -- each chunk of the sidecar, unless `top_k` other chunks are found; and this in another process,
    -- as the API, which has a store of its own, in step with the files before, and which last saw
    -- the files at other times.
    pub upload-Finds :
        (file : UploadFile) (world : World) (d : Document) (world' : World) (chunks : List Text)
        (k left updated_at : ℕ) (outside : ℕ → Outside Vector) (w : Worker Index)
        (reader : Store Index) (text : Text) (query : Vector) (top_k : ℕ)
        (docs : Option (List Text))
        → All (λ r. (r.id == id) ≡ false) world.rows
        → lookup (pdf_path settings.upload_dir id) world.files ≡ none
        → lookup (chunks_path settings.upload_dir id) world.files ≡ none
        → upload settings extract_text str id file owner_id world ≡ (ok d, world')
        → lookup (chunks_path settings.upload_dir id) world'.files ≡ some (sidecar chunks)
        → w.row ≡ some (row_of updated_at d)
        → w.sidecar ≡ some chunks
        → IsSound F w.store w.files
        → IsSaved F w.store w.files
        → IsSound F reader w.files
        → k ≤ left
        → owner_id ≢ []
        → ((j : ℕ) → j < k → (outside j).publish_failed_raises ≡ none)
        → IsUp (outside k)
        → is_in text chunks ≡ true
        → ((meta : Meta) → meta.document_id ≡ id → is_wanted docs meta ≡ true)
        → let w' = (deliver C F settings.upload_dir message_of left outside w).1 in
          reader.loaded_mtimes ≢ mtimes F w'.files
          → (d.status ≡ pending)
            × (d.chunk_count ≡ some (length chunks))
            × (world'.sent ≡ world.sent ++ id ∷ [])
            × ((hits : List (Hit Score)) × ((search_store F query owner_id top_k docs reader
                    w'.files).0
                  ≡ returned hits)
                × (length hits < top_k → Finds F id owner_id text hits))
    upload-Finds file world d world' chunks k left updated_at outside w reader text query top_k docs
          fresh no_pdf clean uploaded there found stored sound saved in_step le owned reached up
          in_chunks asked stale =
        let (fits, same_id, same_owner, visible, added, files) =
          subst (IsUploaded settings extract_text str id owner_id file world) uploaded (
            upload-IsUploaded settings extract_text str id owner_id file world fresh no_pdf
              clean) in
        let (status, counted, sent) =
          pending_of d.status (body file.pieces) d world world' chunks files there in
        let (vectors, embedded, paired) = up.embeds chunks in
        (
          status,
          counted,
          sent,
          deliver-Finds C F settings.upload_dir message_of id owner_id chunks k left outside w
              reader vectors text query top_k docs le owned reached
              (record {
                embedded = embedded;
                paired = paired;
                sends = up.sends;
                publishes = up.publishes;
              })
              (record {
                row = row_of updated_at d;
                there = found;
                own = (same_id, same_owner);
                stored = stored;
                sound = sound;
              })
              saved in_step in_chunks asked stale,
        )
