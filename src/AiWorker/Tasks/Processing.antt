-- ===== src/AiWorker/Tasks/Processing.antt =====
-- What a run of `process_document` leaves.
use ai_document_analysis.Prelude.{
  ℕ, nat-Eq, ◌≡◌, ◌≢◌, refl, ap, ◌∙◌, false, inr, Option, none, some, List, [], ◌∷◌, ◌++◌, Text,
  length, arith,
}
use ai_document_analysis.AiWorker.FaissStore.{is_chunk_of, reload_if_stale, delete_document}
use ai_document_analysis.AiWorker.FaissStore.Interface.{Faiss}
use ai_document_analysis.AiWorker.FaissStore.Types.{Meta, Files, Store, Outcome, returned}
use ai_document_analysis.AiWorker.FaissStore.Chunks.{texts_of}
use ai_document_analysis.AiWorker.FaissStore.Processes.{IsSound}
use ai_document_analysis.AiWorker.FaissStore.Reindex.{
  reindex, delete_document-Deletes, reindex-IsIndexed,
}
use ai_document_analysis.Prelude.Dict.{lookup}
use ai_document_analysis.Shared.Json.Codec.{Codec}
use ai_document_analysis.Shared.Redis.Channels.{channel_of, publish_document_status}
use ai_document_analysis.DocumentService.Documents.{processing, processed, failed}
use ai_document_analysis.AiWorker.Tasks.{
  Row, Worker, Outside, TaskEnd, finished, retried, crashed, fail, announce, finish, after_store,
  index_document, process_row, process_document, processed_payload,
}

module _ (C : Codec) (F : Faiss) (upload_dir : Text) (message_of : Outcome ℕ → Text) where
  open F use {Index, Vector}

  abbrev pub run : Outside Vector → Worker Index → TaskEnd × Worker Index
  run = process_document C F upload_dir message_of

  -- The store after the two calls that a run makes.
  abbrev indexed :
      Outside Vector
      → Row
      → List Text
      → List Vector
      → Worker Index
      → Outcome ℕ × Store Index × Files Index
  indexed o row chunks vectors w =
      reindex F o.t o.u o.t' o.u' row.id chunks vectors row.owner_id w.store w.files

  -- A run's view of the world once the chunks are in the store.
  abbrev indexed_worker :
      Outside Vector → Row → List Text → List Vector → Worker Index → Worker Index
  indexed_worker o row chunks vectors w =
      let (added, store, files) = indexed o row chunks vectors w in
      record w { row = some row; store = store; files = files }

  index_document-finish :
      (o : Outside Vector) (row : Row) (chunks : List Text) (vectors : List Vector)
      (w : Worker Index) (n m : ℕ)
      → w.row ≡ some row
      → (delete_document F o.t o.u row.id row.owner_id w.store w.files).0 ≡ returned n
      → (indexed o row chunks vectors w).0 ≡ returned m
      → index_document C F upload_dir message_of o chunks vectors row w
        ≡ finish C F upload_dir message_of o chunks row (indexed_worker o row chunks vectors w)
  unfolding index_document after_store
  index_document-finish o row chunks vectors w n m there deleted added =
      rw (deleted, added, there) refl

  process_row_lem :
      (o : Outside Vector) (w : Worker Index) (row : Row) (chunks : List Text)
      (vectors : List Vector)
      → o.embed_texts chunks ≡ inr vectors
      → process_row C F upload_dir message_of o (some chunks) row w
        ≡ index_document C F upload_dir message_of o chunks vectors row w
  unfolding process_row
  process_row_lem o w row chunks vectors embedded = ground (arith, embedded)

  pub process_document_lem :
      (o : Outside Vector) (w : Worker Index) (row : Row)
      → w.row ≡ some row
      → let started : Row = record row { status = processing } in
        run o w
        ≡ process_row C F upload_dir message_of o w.sidecar started
            (record w { row = some started })
  unfolding process_document
  process_document_lem o w row there = ground (arith, there)

  -- A row with an owner, a sidecar of chunks that can be embedded, one vector to a chunk, and a
  -- store in step with its files.
  pub record IsReady (o : Outside Vector) (w : Worker Index) (row : Row) (chunks : List Text)
      (vectors : List Vector) : Type 0 where
    pub there : w.row ≡ some row
    pub stored : w.sidecar ≡ some chunks
    pub embedded : o.embed_texts chunks ≡ inr vectors
    pub owned : row.owner_id ≢ []
    pub paired : length vectors ≡ length chunks
    pub sound : IsSound F w.store w.files

  -- What the store holds after a run for the row.
  pub record IsExact (w : Worker Index) (row : Row) (chunks : List Text) (s' : Store Index)
      : Type 0 where
    pub exact : texts_of row.id row.owner_id s'.metadata ≡ chunks
    pub kept :
        (i : ℕ) (meta : Meta)
        → lookup i (reload_if_stale F w.files w.store).metadata ≡ some meta
        → is_chunk_of row.id row.owner_id meta ≡ false
        → lookup i s'.metadata ≡ some meta

  module _ (o : Outside Vector) (w : Worker Index) (row : Row) (chunks : List Text)
      (vectors : List Vector) (ready : IsReady o w row chunks vectors) where
    abbrev started : Row
    started = record row { status = processing }

    run-finish :
        run o w
        ≡ finish C F upload_dir message_of o chunks started
            (indexed_worker o started chunks vectors (record w { row = some started }))
    run-finish =
        let w₁ : Worker Index = record w { row = some started } in
        let gone =
          delete_document-Deletes F o.t o.u row.id row.owner_id w.store w.files ready.owned
            ready.sound in
        let done =
          reindex-IsIndexed F o.t o.u o.t' o.u' row.id chunks vectors row.owner_id w.store w.files
            ready.owned ready.paired ready.sound in
        process_document_lem o w row ready.there
        ∙ ap (λ c. process_row C F upload_dir message_of o c started w₁) ready.stored
        ∙ process_row_lem o w₁ started chunks vectors ready.embedded
        ∙ index_document-finish o started chunks vectors w₁ _ _ refl gone.counted done.counted

    indexed-IsExact :
        IsExact w row chunks
          (indexed_worker o started chunks vectors (record w { row = some started })).store
    indexed-IsExact =
        let done =
          reindex-IsIndexed F o.t o.u o.t' o.u' row.id chunks vectors row.owner_id w.store w.files
            ready.owned ready.paired ready.sound in
        record { exact = done.exact; kept = done.kept }

    finish-processed :
        (w₁ : Worker Index)
        → o.send_raises ≡ none
        → o.publish_raises ≡ none
        → finish C F upload_dir message_of o chunks started w₁ ≡ (
          finished,
          record w₁ {
            row = some (record row { status = processed; chunk_count = some (length chunks) });
            sent = w₁.sent ++ row.id ∷ [];
            published =
                w₁.published
                ++ (channel_of row.owner_id, C.dumps (processed_payload row.id (length chunks)))
                  ∷ [];
          },
        )
    unfolding finish announce publish_document_status
    finish-processed w₁ sends publishes = rw (sends, publishes) refl

    -- For a row that has an owner and a sidecar of chunks that can be embedded, one vector to a
    -- chunk, a store that is in step with its files, and a broker and a Redis that can be reached,
    -- a run returns, whatever earlier runs left. The row is processed, counts the chunks and is
    -- otherwise as it was, an error message of an earlier run included. The store holds exactly
    -- these chunks of the document and every entry that is not of it, and one task is sent and one
    -- status published on the channel of the owner.
    pub process_document-processed :
        o.send_raises ≡ none
        → o.publish_raises ≡ none
        → (w' : Worker Index) × (run o w ≡ (finished, w'))
          × (w'.row ≡ some (record row { status = processed; chunk_count = some (length chunks) }))
          × IsExact w row chunks w'.store
          × (w'.sent ≡ w.sent ++ row.id ∷ [])
          × (w'.published
              ≡ w.published
                ++ (channel_of row.owner_id, C.dumps (processed_payload row.id (length chunks)))
                  ∷ [])
    process_document-processed sends publishes =
        (_, run-finish ∙ finish-processed _ sends publishes, refl, indexed-IsExact, refl, refl)

    -- How the `except` block ends after a publication that raised.
    abbrev unannounced : Text → Option Text → TaskEnd
    unannounced message none = retried message
    unannounced message (some e) = crashed e

    finish-unannounced :
        (w₁ : Worker Index) (message : Text) (again : Option Text)
        → o.send_raises ≡ none
        → o.publish_raises ≡ some message
        → o.publish_failed_raises ≡ again
        → let (end, w') = finish C F upload_dir message_of o chunks started w₁ in
          (end ≡ unannounced message again)
          × (w'.row
              ≡ some (record row {
                status = failed;
                error_message = some message;
                chunk_count = some (length chunks);
              }))
          × (w'.store ≡ w₁.store)
    unfolding finish announce fail publish_document_status
    finish-unannounced w₁ message none sends publishes fails = (
      rw (sends, publishes, fails) refl,
      rw (sends, publishes, fails) refl,
      rw (sends, publishes, fails) refl,
    )
    finish-unannounced w₁ message (some e) sends publishes fails = (
      rw (sends, publishes, fails) refl,
      rw (sends, publishes, fails) refl,
      rw (sends, publishes, fails) refl,
    )

    -- Under the same conditions, but with a Redis that cannot be reached when the end is to be
    -- published, the row is failed with the text of that exception, although the store holds
    -- exactly the chunks of the document and the row counts them. The task is run again only if
    -- Redis can be reached for the status of the failure.
    pub process_document-unannounced :
        (message : Text)
        → o.send_raises ≡ none
        → o.publish_raises ≡ some message
        → (w' : Worker Index) × (run o w ≡ (unannounced message o.publish_failed_raises, w'))
          × (w'.row
              ≡ some (record row {
                status = failed;
                error_message = some message;
                chunk_count = some (length chunks);
              }))
          × IsExact w row chunks w'.store
    process_document-unannounced message sends publishes =
        let w₁ : Worker Index =
          indexed_worker o started chunks vectors (record w { row = some started }) in
        let (ended, failed_row, same) =
          finish-unannounced w₁ message o.publish_failed_raises sends publishes refl in
        let w' : Worker Index = (finish C F upload_dir message_of o chunks started w₁).1 in
        (w', run-finish ∙ ap (λ e. (e, w')) ended, failed_row, rw same indexed-IsExact)
