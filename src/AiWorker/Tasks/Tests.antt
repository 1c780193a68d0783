-- ===== src/AiWorker/Tasks/Tests.antt =====
-- Examples: runs that go well, that find no embedding model, and that cannot reach Redis.
use ai_document_analysis.Prelude.{
  ◌<◌, true, text_eq, ℕ, zero, suc, nat-Eq, ◌≤◌, ◌≡◌, ◌≢◌, refl, ap, ◌∙◌, inl, none, some, List, [],
  ◌∷◌, codes, length, arith,
}
use ai_document_analysis.Shared.Json.Postfix.{postfix}
use ai_document_analysis.Shared.Redis.Channels.{channel_of}
use ai_document_analysis.AiWorker.FaissStore.{mtimes, is_wanted, search_store}
use ai_document_analysis.AiWorker.FaissStore.Types.{Meta, Hit, returned}
use ai_document_analysis.AiWorker.FaissStore.Found.{Finds}
use ai_document_analysis.AiWorker.Tasks.Searchable.{deliver-Finds}
use ai_document_analysis.AiWorker.FaissStore.Processes.{IsSound}
use ai_document_analysis.AiWorker.FaissStore.Returned.{current_texts}
use ai_document_analysis.AiWorker.FaissStore.IdIndex.{
  id_index, fresh_store, fresh-IsSound, fresh-IsSaved,
}
use ai_document_analysis.DocumentService.Documents.{processed, failed}
use ai_document_analysis.AiWorker.Tasks.{
  Row, Worker, Outside, finished, crashed, deliver, processed_payload, reindex_pending_documents,
}
use ai_document_analysis.AiWorker.Tasks.Sample.{
  id, alice, row, chunks, worker, good, no_message, ready,
}
use ai_document_analysis.AiWorker.Tasks.Processing.{
  run, IsExact, process_document-processed, process_document-unannounced,
}
use ai_document_analysis.AiWorker.Tasks.Runs.{runs, uploaded, next, Reach-counted}
use ai_document_analysis.AiWorker.Tasks.Retries.{IsDone, deliver-IsDone}

-- The model cannot be loaded.
abbrev no_model : Outside ℕ
no_model = record good { embed_texts = λ chunks. inl (codes "no model") }

-- Redis cannot be reached, also not for the status of the failure.
abbrev no_redis : Outside ℕ
no_redis = record good {
  publish_raises = some (codes "down");
  publish_failed_raises = some (codes "down");
}

abbrev outside : ℕ → Outside ℕ
outside zero = no_model
outside (suc n) = good

process_document-processed_example :
    (w' : Worker (List ℕ)) × (run postfix id_index (codes "up") no_message good worker
      ≡ (finished, w'))
    × (w'.row ≡ some (record row { status = processed; chunk_count = some 1 }))
    × IsExact postfix id_index (codes "up") no_message worker row chunks w'.store
    × (w'.sent ≡ id ∷ [])
    × (w'.published ≡ (channel_of alice, postfix.dumps (processed_payload id 1)) ∷ [])
process_document-processed_example =
    process_document-processed postfix id_index (codes "up") no_message good worker row chunks
      (3 ∷ []) (ready good refl) refl refl

process_document-unannounced_example :
    (w' : Worker (List ℕ)) × (run postfix id_index (codes "up") no_message no_redis worker
      ≡ (crashed (codes "down"), w'))
    × (w'.row
        ≡ some (record row {
          status = failed;
          error_message = some (codes "down");
          chunk_count = some 1;
        }))
    × IsExact postfix id_index (codes "up") no_message worker row chunks w'.store
process_document-unannounced_example =
    process_document-unannounced postfix id_index (codes "up") no_message no_redis worker row chunks
      (3 ∷ []) (ready no_redis refl) (codes "down") refl refl

-- The worker after a run that went well.
abbrev later : Worker (List ℕ)
later = (run postfix id_index (codes "up") no_message good worker).1

abbrev counted_row : Row
counted_row = record row { status = processed; chunk_count = some 1 }

later_row : later.row ≡ some counted_row
later_row =
    let (w', ran, left, _, _, _) =
      process_document-processed postfix id_index (codes "up") no_message good worker row chunks
        (3 ∷ []) (ready good refl) refl refl in
    ap (λ r. r.1.row) ran ∙ left

Reach-counted_example :
    IsSound id_index later.store later.files
    × (processed ≡ processed
        → some 1 ≡ some (length (current_texts id_index id alice later.store later.files)))
Reach-counted_example =
    Reach-counted postfix id_index (codes "up") no_message id alice later counted_row
      (next (uploaded worker row refl refl refl refl fresh-IsSound) (runs good refl)) later_row

reached : (j : ℕ) → (outside j).publish_failed_raises ≡ none
reached zero = refl
reached (suc j) = refl

-- After the retry the document is there.
deliver-IsDone_example :
    let (ends, w') = deliver postfix id_index (codes "up") no_message 3 outside worker in
    (length ends ≤ 2) × IsDone postfix id_index (codes "up") no_message id alice chunks w'
deliver-IsDone_example =
    deliver-IsDone postfix id_index (codes "up") no_message id alice chunks 1 3 outside worker
      (3 ∷ []) (omega arith) (cc) (λ j lt. reached j)
      (record { embedded = refl; paired = refl; sends = refl; publishes = refl })
      (record { row = row; there = refl; own = (refl, refl); stored = refl; sound = fresh-IsSound })

-- A document is requeued once it has been open for more than twenty minutes.
requeued : reindex_pending_documents 1200001 (row ∷ []) ≡ id ∷ []
unfolding reindex_pending_documents
requeued = refl

asked_for : (meta : Meta) → meta.document_id ≡ id → is_wanted (some (id ∷ [])) meta ≡ true
unfolding text_eq
asked_for meta e = rw e refl

-- And it is found by a search in this document, in a process that last saw an empty directory.
chunk_found_later :
    let w' = (deliver postfix id_index (codes "up") no_message 3 outside worker).1 in
    fresh_store.loaded_mtimes ≢ mtimes id_index w'.files
    → (hits : List (Hit ℕ)) × ((search_store id_index 7 alice 5
          (some (id ∷ []))
          fresh_store
          w'.files).0
        ≡ returned hits)
      × (length hits < 5 → Finds id_index id alice (codes "abc") hits)
unfolding text_eq
chunk_found_later =
    deliver-Finds postfix id_index (codes "up") no_message id alice chunks 1 3 outside worker
      fresh_store (3 ∷ []) (codes "abc") 7 5 (some (id ∷ [])) (omega arith) (cc) (λ j lt. reached j)
      (record { embedded = refl; paired = refl; sends = refl; publishes = refl })
      (record { row = row; there = refl; own = (refl, refl); stored = refl; sound = fresh-IsSound })
      fresh-IsSaved fresh-IsSound refl asked_for
