-- ===== src/DocumentService/Documents/Deletion.antt =====
-- `DocumentService.delete` over the route of ai-worker-service that it calls.
use ai_document_analysis.Prelude.{ℕ, ◌≡◌, ◌≢◌, refl, Option, List, [], Text, All}
use ai_document_analysis.Shared.Exceptions.{Exception, Result, ok, raise}
use ai_document_analysis.AiWorker.Api.{delete_route}
use ai_document_analysis.AiWorker.FaissStore.{search_store, delete_document}
use ai_document_analysis.AiWorker.FaissStore.Interface.{Faiss}
use ai_document_analysis.AiWorker.FaissStore.Processes.{IsSound}
use ai_document_analysis.AiWorker.FaissStore.Reindex.{delete_document-Deletes}
use ai_document_analysis.AiWorker.FaissStore.Sources.{search_store-gone}
use ai_document_analysis.AiWorker.FaissStore.Types.{Files, Store, Hit, returned}
use ai_document_analysis.DocumentService.Documents.{
  Document, World, Settings, get, remove_document, delete,
}

module _ (F : Faiss) (t u : ℕ) (failure : Text) where
  open F use {Vector, Score, Index}

  abbrev pub Worker : Type 0
  Worker = Store Index × Files Index

  -- An error of 500 is raised by the service client.
  abbrev pub through_client : Result ℕ → Result ℕ
  through_client (ok deleted) = ok deleted
  through_client (raise e) = raise (Exception.upstream_service failure)

  -- The request to the worker's route, whose files are written at the times `t` and `u`.
  pub request_deletion : Text → Text → Worker → Result ℕ × Worker
  request_deletion document_id owner_id (store, files) =
      let (answer, store', files') = delete_route F t u document_id owner_id store files in
      (through_client answer, (store', files'))

  module _ (settings : Settings) (document_id owner_id : Text) (w : World) (document : Document)
      (store : Store Index) (files : Files Index) where
    abbrev result : Result (Unit {0}) × World × Worker
    result = delete settings request_deletion document_id owner_id w (store, files)

    deleted_result :
        owner_id ≢ []
        → IsSound F store files
        → get document_id owner_id w ≡ ok document
        → let after = delete_document F t u document_id owner_id store files in
          result ≡ (ok tt, remove_document settings document_id document w, (after.1, after.2))
    unfolding delete request_deletion delete_route
    deleted_result known sound found =
        let deleted = delete_document-Deletes F t u document_id owner_id store files known sound in
        rw (found, delete, deleted.counted) refl

    -- Over a store that agrees with its index, the deletion of a document that its owner may see
    -- succeeds, and no search of the owner, for whatever question and documents, then finds a chunk
    -- of it.
    pub delete-unsearchable :
        owner_id ≢ []
        → IsSound F store files
        → get document_id owner_id w ≡ ok document
        → (result.0 ≡ ok tt)
          × ((query : Vector) (top_k : ℕ) (docs : Option (List Text))
              → (hits : List (Hit Score)) × ((search_store F query owner_id top_k docs result.2.0
                    result.2.1).0
                  ≡ returned hits)
                × All (λ h. h.meta.document_id ≢ document_id) hits)
    delete-unsearchable known sound found =
        let deleted = delete_document-Deletes F t u document_id owner_id store files known sound in
        rw (deleted_result known sound found) (
          refl,
          λ query top_k docs.
              search_store-gone F query owner_id top_k docs _ _ document_id known deleted.current
                deleted.without.gone,
        )
