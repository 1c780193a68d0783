-- ===== src/DocumentService/Documents.antt =====
-- document-service/app/services/document_service.py with models/document.py and the repository. The
-- state is the `documents` table, in the order of creation, the files under UPLOAD_DIR, and
-- the tasks that were sent, with whether the broker can be reached. `fitz`, Python's `str` of a number and ai-worker-service are arguments.
pub mod Sending
pub mod Upload
pub mod Access
pub mod Deletion
mod Tests
use mathlib.Core.List.{reverse}
use ai_document_analysis.Prelude.{
  ℕ, ◌+◌, ◌*◌, ◌/◌, Bool, true, false, not, ◌&&◌, ◌||◌, ◌⊎◌, inl, inr, Option, none, some, List, [],
  ◌∷◌, ◌++◌, map, Text, ◌==◌, text-Eq, codes, filter, length, is_empty, ltb, if◌then◌else◌,
}
use ai_document_analysis.Prelude.Dict.{Dict, lookup, insert, erase}
use ai_document_analysis.Shared.Exceptions.{Exception, Result, ok, raise, ◌>>=◌}
use ai_document_analysis.DocumentService.Chunker.{chunk_text}
use ai_document_analysis.DocumentService.Chunker as Chunker

pub data DocumentStatus : Type 0 where
  pending processing processed failed : DocumentStatus

pub record Document : Type 0 where
  pub id : Text
  pub owner_id : Text
  pub filename : Text
  pub storage_path : Text
  pub content_type : Text
  pub status : DocumentStatus
  pub error_message : Option Text
  pub page_count : Option ℕ
  pub chunk_count : Option ℕ
  pub is_deleted : Bool

-- A file under UPLOAD_DIR: an uploaded PDF, or the sidecar with the chunks.
pub data File : Type 0 where
  pdf : List ℕ → File
  sidecar : List Text → File

pub record World : Type 0 where
  pub rows : List Document
  pub files : Dict Text File
  pub sent : List Text
  -- The text of the exception with which `send_task` ends, where the broker cannot be reached.
  pub send_raises : Option Text

-- The settings that the service reads.
pub record Settings : Type 0 where
  pub upload_dir : Text
  pub max_pdf_upload_size_bytes : ℕ
  pub chunk_size : ℕ
  pub chunk_overlap : ℕ

-- The fields of UploadFile; `pieces` is what the calls of `read` return.
pub record UploadFile : Type 0 where
  pub content_type : Text
  pub filename : Option Text
  pub pieces : List (List ℕ)

abbrev pub stem : Text → Text → Text
stem dir id = dir ++ codes "/" ++ id

abbrev pub pdf_path : Text → Text → Text
pdf_path dir id = stem dir id ++ codes ".pdf"

abbrev pub chunks_path : Text → Text → Text
chunks_path dir id = stem dir id ++ codes ".chunks.json"

-- The loop that writes the file, with `written` so far; none where the limit is exceeded.
pub write_pieces : ℕ → List ℕ → List (List ℕ) → Option (List ℕ)
write_pieces limit written [] = some written
write_pieces limit written ([] ∷ pieces) = some written
write_pieces limit written ((b ∷ bs) ∷ pieces) =
    let rest = write_pieces limit (written ++ b ∷ bs) pieces in
    if ltb limit (length written + length (b ∷ bs)) then none else rest

-- `file.filename or f"{document_id}.pdf"`
abbrev pub filename_or : Option Text → Text → Text
filename_or none id = id ++ codes ".pdf"
filename_or (some []) id = id ++ codes ".pdf"
filename_or (some (c ∷ name)) id = c ∷ name

-- `update`: the commit writes the row of the document back.
abbrev pub update : Document → World → World
update document w = record w {
  rows = map (λ d. if d.id == document.id then document else d) w.rows;
}

abbrev pub unlink : Text → World → World
unlink path w = record w { files = erase path w.files }

abbrev pub write_file : Text → File → World → World
write_file path file w = record w { files = insert path file w.files }

-- `celery_app.send_task(TOPIC_DOCUMENT_UPLOADED, …)`, then `return document`
unfoldable pub send_task : Text → Document → World → Result Document × World
send_task id document w = elim w.send_raises [
  | none ↦ (ok document, record w { sent = w.sent ++ id ∷ [] })
  | some message ↦ (raise (Exception.unhandled message), w)
]

-- `chunk_text` with its errors as messages
abbrev pub chunks_or : Chunker.Result (List Text) → Text ⊎ List Text
chunks_or (Chunker.ok chunks) = inr chunks
chunks_or (Chunker.raise e) = inl (codes "range() arg 3 must not be zero")

module _ (settings : Settings) (extract_text : List ℕ → Text ⊎ (Text × ℕ)) (str : ℕ → Text) where
  -- The `try` block after the row is created.
  pub extract_chunks : List ℕ → Text ⊎ (List Text × ℕ)
  extract_chunks content = elim (extract_text content) [
    | inl message ↦ inl message
    | inr (text, page_count) ↦
        elim (chunks_or (chunk_text text settings.chunk_size settings.chunk_overlap)) [
          | inl message ↦ inl message
          | inr chunks ↦ inr (chunks, page_count)
        ]
  ]

  -- `upload` from the `try` block on: the row `document` was just created.
  pub finish_upload : Document → Text ⊎ (List Text × ℕ) → World → Result Document × World
  unfolding send_task
  finish_upload document (inl message) w =
      let failed_document = record document {
        status = failed;
        error_message = some (codes "Failed to extract text: " ++ message);
      } in
      (ok failed_document, update failed_document (unlink document.storage_path w))
  finish_upload document (inr (chunks, page_count)) w =
      let counted = record document {
        page_count = some page_count;
        chunk_count = some (length chunks);
      } in
      send_task document.id counted (
        update counted
          (write_file (chunks_path settings.upload_dir document.id) (sidecar chunks) w))

  -- `upload`; `id` is the fresh uuid4.
  unfoldable pub upload : Text → UploadFile → Text → World → Result Document × World
  unfolding write_pieces extract_chunks finish_upload
  upload id file owner_id w =
      if not (file.content_type == codes "application/pdf")
      then (raise (Exception.validation (codes "Only PDF files are supported")), w)
      else let path = pdf_path settings.upload_dir id in
        let limit = settings.max_pdf_upload_size_bytes in
        elim (write_pieces limit [] file.pieces) [
          | none ↦ (
            raise (
                Exception.payload_too_large (
                  codes "PDF exceeds the "
                  ++ str (limit / (1024 * 1024))
                  ++ codes "MB upload limit.")),
            unlink path w,
          )
          | some content ↦
              let document : Document = record {
                id = id;
                owner_id = owner_id;
                filename = filename_or file.filename id;
                storage_path = path;
                content_type = file.content_type;
                status = pending;
                error_message = none;
                page_count = none;
                chunk_count = none;
                is_deleted = false;
              } in
              let created : World = record (write_file path (pdf content) w) {
                rows = w.rows ++ document ∷ [];
              } in
              finish_upload document (extract_chunks content) created
        ]

-- `result.scalar_one_or_none()`
pub one_document : List Document → Result (Option Document)
one_document [] = ok none
one_document (d ∷ []) = ok (some d)
one_document (d ∷ e ∷ ds) = raise (Exception.unhandled (codes "MultipleResultsFound"))

pub get_by_id : Text → List Document → Result (Option Document)
unfolding one_document
get_by_id id rows = one_document (filter (λ d. d.id == id) rows)

-- The `where` clause of `list_by_owner`.
abbrev pub is_listed : Text → Document → Bool
is_listed owner_id d = d.owner_id == owner_id && not d.is_deleted

-- The newest first.
pub list_by_owner : Text → List Document → List Document
list_by_owner owner_id rows = reverse (filter (is_listed owner_id) rows)

abbrev pub not_found : Exception
not_found = Exception.not_found (codes "Document not found")

-- `if not document or …: raise NotFoundException`
abbrev pub visible : (Document → Bool) → Option Document → Result Document
visible test none = raise not_found
visible test (some d) = if test d then ok d else raise not_found

pub get : Text → Text → World → Result Document
unfolding get_by_id
get document_id owner_id w = do
  found ← get_by_id document_id w.rows
  visible (is_listed owner_id) found

pub list_for_owner : Text → World → List Document
unfolding list_by_owner
list_for_owner owner_id w = list_by_owner owner_id w.rows

abbrev pub exists_file : Option File → Bool
exists_file none = false
exists_file (some f) = true

module _ (settings : Settings) where
  -- `admin_reprocess` once the document is found.
  pub requeue : Text → Document → World → Result Document × World
  unfolding send_task
  requeue document_id document w =
      if not (exists_file (lookup (chunks_path settings.upload_dir document_id) w.files))
      then (
        raise (
            Exception.validation (
              codes
                "Cannot reprocess: original chunk data is no longer on disk (the document may need to be re-uploaded)")),
        w,
      )
      else let reset = record document { status = pending; error_message = none } in
        send_task document_id reset (update reset w)

  pub admin_reprocess : Text → World → Result Document × World
  unfolding get_by_id requeue
  admin_reprocess document_id w =
      elim (get_by_id document_id w.rows >>= visible (λ d. not d.is_deleted)) [
        | raise e ↦ (raise e, w)
        | ok document ↦ requeue document_id document w
      ]

  -- What `delete` does once ai-worker-service has answered; only a log line reads the answer.
  pub remove_document : Text → Document → World → World
  remove_document document_id document w =
      update (record document { is_deleted = true })
        (unlink (chunks_path settings.upload_dir document_id) (unlink document.storage_path w))

  -- `delete`, with the state of ai-worker-service and its answer to the request.
  pub delete :
      {Worker : Type 0}
      → (Text → Text → Worker → Result ℕ × Worker)
      → Text
      → Text
      → World
      → Worker
      → Result (Unit {0}) × World × Worker
  unfolding get remove_document
  delete request document_id owner_id w worker = elim (get document_id owner_id w) [
    | raise e ↦ (raise e, w, worker)
    | ok document ↦
        let (answer, worker') = request document_id owner_id worker in
        elim answer [
          | raise e ↦ (raise e, w, worker')
          | ok deleted_chunks ↦ (ok tt, remove_document document_id document w, worker')
        ]
  ]
