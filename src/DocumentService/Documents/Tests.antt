-- ===== src/DocumentService/Documents/Tests.antt =====
-- Examples: uploads of three bytes with a limit of four, and a table of one document.
use ai_document_analysis.Prelude.{
  strip, map, length, true, ◌<◌, arith, ℕ, ◌≡◌, refl, inl, inr, ◌⊎◌, false, none, some, List, [],
  ◌∷◌, Text, codes, text_eq, suc, ◌≢◌, All, Option,
}
use ai_document_analysis.Shared.Exceptions.{Result, ok}
use ai_document_analysis.DocumentService.Chunker.{chunk_text}
use ai_document_analysis.DocumentService.Documents.{
  pending, processed, Document, pdf, sidecar, World, Settings, UploadFile, send_task, upload,
  admin_reprocess, delete, get, get_by_id, one_document,
}
use ai_document_analysis.DocumentService.Documents.Upload.{IsUploaded, upload-IsUploaded}
use ai_document_analysis.DocumentService.Documents.Access.{
  IsDeletion, delete-IsDeletion, IsRequeued, admin_reprocess-IsRequeued,
}
use ai_document_analysis.Shared.Json.Postfix.{postfix}
use ai_document_analysis.AiWorker.FaissStore.{is_wanted}
use ai_document_analysis.AiWorker.FaissStore.Types.{Meta}
use ai_document_analysis.AiWorker.FaissStore.Found.{Finds}
use ai_document_analysis.AiWorker.Tasks.{
  Worker, fail, announce, finish, after_store, index_document, process_row, process_document,
  deliver,
}
use ai_document_analysis.AiWorker.Tasks.Sample.{worker, good, no_message}
use ai_document_analysis.AiWorker.Tasks.Uploaded.{row_of, IsUp, upload-Finds}
use ai_document_analysis.AiWorker.FaissStore.{
  mtimes, init, load_or_create_index, load_metadata, reload_if_stale, save, add_loaded,
  delete_loaded, delete_document, matching_ids, tag_all, search_store, add,
}
use ai_document_analysis.AiWorker.FaissStore.Processes.{IsSound, Leaves, add-Leaves}
use ai_document_analysis.AiWorker.FaissStore.IdIndex.{
  id_index, empty_dir, fresh_store, fresh-IsSound, fresh-IsSaved,
}
use ai_document_analysis.AiWorker.FaissStore.Types.{Hit, Outcome, Store, Files, returned}
use ai_document_analysis.DocumentService.Documents.Deletion.{request_deletion, delete-unsearchable}

abbrev settings : Settings
settings = record {
  upload_dir = codes "up";
  max_pdf_upload_size_bytes = 4;
  chunk_size = 10;
  chunk_overlap = 2;
}

-- The text of a PDF is its bytes, and an empty one cannot be opened.
abbrev extract_text : List ℕ → Text ⊎ (Text × ℕ)
extract_text [] = inl (codes "cannot open empty document")
extract_text (b ∷ bs) = inr (b ∷ bs, 1)

abbrev three_bytes : UploadFile
three_bytes = record {
  content_type = codes "application/pdf";
  filename = none;
  pieces = (97 ∷ 98 ∷ []) ∷ (99 ∷ []) ∷ [];
}

abbrev report : Document
report = record {
  id = codes "1";
  owner_id = codes "ada";
  filename = codes "r.pdf";
  storage_path = codes "up/1.pdf";
  content_type = codes "application/pdf";
  status = processed;
  error_message = none;
  page_count = some 1;
  chunk_count = some 1;
  is_deleted = false;
}

abbrev stored : World
stored = record {
  rows = report ∷ [];
  files = (codes "up/1.chunks.json", sidecar (codes "abc" ∷ [])) ∷ [];
  sent = [];
  send_raises = none;
}

-- ai-worker-service counts its calls, and has one chunk.
abbrev one_chunk : Text → Text → ℕ → Result ℕ × ℕ
one_chunk id owner calls = (ok 1, suc calls)

upload-IsUploaded_example :
    IsUploaded settings extract_text
      (λ n. codes "0")
      (codes "2")
      (codes "ada")
      three_bytes
      stored
      (upload settings extract_text (λ n. codes "0") (codes "2") three_bytes (codes "ada") stored)
unfolding text_eq
upload-IsUploaded_example =
    upload-IsUploaded settings extract_text (λ n. codes "0") (codes "2") (codes "ada") three_bytes
      stored (refl, tt) refl refl

delete-IsDeletion_example :
    IsDeletion settings one_chunk
      (codes "1")
      (codes "ada")
      stored
      (delete settings one_chunk (codes "1") (codes "ada") stored 0)
delete-IsDeletion_example = delete-IsDeletion settings one_chunk (codes "1") (codes "ada") stored 0

admin_reprocess-IsRequeued_example :
    IsRequeued settings (codes "1") stored (admin_reprocess settings (codes "1") stored)
admin_reprocess-IsRequeued_example = admin_reprocess-IsRequeued settings (codes "1") stored

-- The deletion and the requeueing of the example succeed.
deleted_ok : (delete settings one_chunk (codes "1") (codes "ada") stored 0).0 ≡ ok tt
unfolding delete get get_by_id one_document text_eq
deleted_ok = refl

-- The store with the chunk of the report.
abbrev indexed : Outcome ℕ × Store (List ℕ) × Files (List ℕ)
indexed =
    add id_index 5 6 (codes "1") (codes "abc" ∷ []) (1 ∷ []) (codes "ada") fresh_store empty_dir

indexed-IsSound : IsSound id_index indexed.1 indexed.2
indexed-IsSound = Leaves.sound (
    add-Leaves id_index 5 6 (codes "1") (codes "abc" ∷ []) (1 ∷ []) (codes "ada") fresh_store
      empty_dir fresh-IsSound)

delete-unsearchable_example :
    let result =
      delete settings
        (request_deletion id_index 5 6 [])
        (codes "1")
        (codes "ada")
        stored
        (indexed.1, indexed.2) in
    (result.0 ≡ ok tt)
    × ((query top_k : ℕ) (docs : Option (List Text))
        → (hits : List (Hit ℕ)) × ((search_store id_index query
              (codes "ada")
              top_k
              docs
              result.2.0
              result.2.1).0
            ≡ returned hits)
          × All (λ h. h.meta.document_id ≢ codes "1") hits)
unfolding get get_by_id one_document text_eq
delete-unsearchable_example =
    delete-unsearchable id_index 5 6 [] settings (codes "1") (codes "ada") stored report indexed.1
      indexed.2 (λ e. cc) indexed-IsSound refl

-- An upload into an empty service, and the worker that takes it up.
abbrev empty_world : World
empty_world = record { rows = []; files = []; sent = []; send_raises = none }

abbrev new_document : Document
new_document = record {
  id = codes "2";
  owner_id = codes "ada";
  filename = codes "2.pdf";
  storage_path = codes "up/2.pdf";
  content_type = codes "application/pdf";
  status = pending;
  error_message = none;
  page_count = some 1;
  chunk_count = some 1;
  is_deleted = false;
}

abbrev uploaded_world : World
uploaded_world = record {
  rows = new_document ∷ [];
  files =
      (codes "up/2.pdf", pdf (97 ∷ 98 ∷ 99 ∷ []))
      ∷ (codes "up/2.chunks.json", sidecar (codes "abc" ∷ []))
      ∷ [];
  sent = codes "2" ∷ [];
  send_raises = none;
}

uploaded :
    upload settings extract_text (λ n. codes "0") (codes "2") three_bytes (codes "ada") empty_world
    ≡ (ok new_document, uploaded_world)
unfolding upload send_task text_eq chunk_text strip
uploaded = refl

abbrev new_worker : Worker (List ℕ)
new_worker = record worker { row = some (row_of 0 new_document) }

length-map : (f : Text → ℕ) (texts : List Text) → length (map f texts) ≡ length texts
length-map f [] = refl
length-map f (t ∷ texts) = omega (arith, length-map f texts)

asked_for : (meta : Meta) → meta.document_id ≡ codes "2" → is_wanted none meta ≡ true
asked_for meta e = refl

good-IsUp : IsUp good
good-IsUp = record {
  embeds = λ texts. (map length texts, refl, length-map length texts);
  sends = refl;
  publishes = refl;
}

no_run : (j : ℕ) → j < 0 → good.publish_failed_raises ≡ none
no_run j lt = refl

abbrev delivered : Worker (List ℕ)
delivered = (deliver postfix id_index (codes "up") no_message 3 (λ j. good) new_worker).1

-- The API last saw an empty directory.
files_are_new : fresh_store.loaded_mtimes ≢ mtimes id_index delivered.files
unfolding deliver process_document process_row index_document after_store finish announce fail init
    mtimes load_or_create_index load_metadata reload_if_stale save add_loaded add delete_loaded
    delete_document matching_ids tag_all
files_are_new e = cc e

upload-Finds_example :
    (new_document.status ≡ pending)
    × (new_document.chunk_count ≡ some 1)
    × (uploaded_world.sent ≡ codes "2" ∷ [])
    × ((hits : List (Hit ℕ)) × ((search_store id_index 7
            (codes "ada")
            5
            none
            fresh_store
            delivered.files).0
          ≡ returned hits)
        × (length hits < 5 → Finds id_index (codes "2") (codes "ada") (codes "abc") hits))
unfolding text_eq
upload-Finds_example =
    upload-Finds settings extract_text (λ n. codes "0") (codes "2") (codes "ada") postfix id_index
      no_message three_bytes empty_world new_document uploaded_world (codes "abc" ∷ []) 0 3 0
      (λ j. good) new_worker fresh_store (codes "abc") 7 5 none tt refl refl uploaded refl refl refl
      fresh-IsSound fresh-IsSaved fresh-IsSound (omega arith) (cc) no_run good-IsUp refl asked_for
      files_are_new
