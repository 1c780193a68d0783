-- ===== src/DocumentService/Documents/Upload.antt =====
-- `upload`: what it leaves in the table, on disk and in the queue.
use ai_document_analysis.Prelude.{
  ℕ, ◌≤◌, ◌≡◌, refl, sym, subst, inl, inr, ◌⊎◌, false, Option, none, some, List, [], ◌∷◌, ◌++◌, map,
  Text, ◌==◌, text-Eq, text_eq, text_eq_iff, text_eq-append, codes, length, length-append, leb, All,
  Bool-cases, Option-cases, Option-cases, arith, if◌then◌else◌,
}
use mathlib.Core.List.{append_assoc, append-nil}
use ai_document_analysis.Prelude.Dict.{lookup, insert, lookup-insert, lookup-erase}
use ai_document_analysis.Shared.Exceptions.{Exception, Result, ok, raise}
use ai_document_analysis.DocumentService.Documents.{
  DocumentStatus, pending, processing, processed, failed, Document, File, pdf, sidecar, World,
  Settings, UploadFile, filename_or, stem, pdf_path, chunks_path, write_pieces, extract_chunks,
  finish_upload, upload,
}
use ai_document_analysis.DocumentService.Documents.Sending.{send_task-sent, send_task-unsent}

-- What `read` returns before the first empty piece.
abbrev pub body : List (List ℕ) → List ℕ
body [] = []
body ([] ∷ pieces) = []
body ((b ∷ bs) ∷ pieces) = (b ∷ bs) ++ body pieces

-- The loop writes the whole body if it fits, and fails if it does not.
write_pieces-body :
    (limit : ℕ) (written : List ℕ) (pieces : List (List ℕ))
    → length written ≤ limit
    → write_pieces limit written pieces ≡ (
        if leb (length (written ++ body pieces)) limit then some (written ++ body pieces) else none)
unfolding write_pieces
write_pieces-body limit written [] h = ground (arith, length-append written [], append-nil written)
write_pieces-body limit written ([] ∷ pieces) h =
    ground (arith, length-append written [], append-nil written)
write_pieces-body limit written ((b ∷ bs) ∷ pieces) h = ground (
  arith,
  length-append written (b ∷ bs),
  length-append (written ++ b ∷ bs) (body pieces),
  append_assoc written (b ∷ bs) (body pieces),
  write_pieces-body limit (written ++ b ∷ bs) pieces,
)

-- Writing back the row that was added last leaves the others, which have other ids.
update_last :
    (d e : Document) (rows : List Document)
    → All (λ r. (r.id == d.id) ≡ false) rows
    → map (λ r. if r.id == d.id then e else r) (rows ++ d ∷ []) ≡ rows ++ e ∷ []
update_last d e [] h = ground (arith, text_eq_iff d.id d.id)
update_last d e (r ∷ rows) h = ground (arith, h.0, update_last d e rows h.1)

module _ (settings : Settings) (extract_text : List ℕ → Text ⊎ (Text × ℕ)) (str : ℕ → Text)
    (id owner_id : Text) where
  abbrev stored_pdf : World → Option File
  stored_pdf w = lookup (pdf_path settings.upload_dir id) w.files

  abbrev stored_chunks : World → Option File
  stored_chunks w = lookup (chunks_path settings.upload_dir id) w.files

  -- What goes with the status of the new row.
  abbrev pub HasFiles : DocumentStatus → List ℕ → Document → World → World → Type 0
  HasFiles pending content d w w' =
      (chunks : List Text) × (stored_pdf w' ≡ some (pdf content))
      × (stored_chunks w' ≡ some (sidecar chunks))
      × (d.chunk_count ≡ some (length chunks))
      × (d.error_message ≡ none)
      × (w'.sent ≡ w.sent ++ id ∷ [])
  HasFiles failed content d w w' =
      (message : Text) × (stored_pdf w' ≡ none)
      × (stored_chunks w' ≡ none)
      × (d.error_message ≡ some message)
      × (w'.sent ≡ w.sent)
  HasFiles processing content d w w' = ⊥
  HasFiles processed content d w w' = ⊥

  -- The row that was added, of a body that fits.
  abbrev pub IsAdded : UploadFile → Document → World → World → Type 0
  IsAdded file d w w' =
      (length (body file.pieces) ≤ settings.max_pdf_upload_size_bytes)
      × (d.id ≡ id)
      × (d.owner_id ≡ owner_id)
      × (d.is_deleted ≡ false)
      × (w'.rows ≡ w.rows ++ d ∷ [])

  -- An upload whose task could not be sent.
  abbrev pub IsUnsent : UploadFile → Exception → World → World → Type 0
  IsUnsent file e w w' =
      (d : Document) × (chunks : List Text) × (message : Text) × (w.send_raises ≡ some message)
      × (e ≡ Exception.unhandled message)
      × IsAdded file d w w'
      × (d.status ≡ pending)
      × (stored_pdf w' ≡ some (pdf (body file.pieces)))
      × (stored_chunks w' ≡ some (sidecar chunks))
      × (w'.sent ≡ w.sent)

  -- How an upload may end.
  abbrev pub IsUploaded : UploadFile → World → Result Document × World → Type 0
  IsUploaded file w (raise e, w') =
      ((w'.rows ≡ w.rows) × (w'.sent ≡ w.sent) × (stored_pdf w' ≡ none) × (stored_chunks w' ≡ none))
      ⊎ IsUnsent file e w w'
  IsUploaded file w (ok d, w') =
      (length (body file.pieces) ≤ settings.max_pdf_upload_size_bytes)
      × (d.id ≡ id)
      × (d.owner_id ≡ owner_id)
      × (d.is_deleted ≡ false)
      × (w'.rows ≡ w.rows ++ d ∷ [])
      × HasFiles d.status (body file.pieces) d w w'

  paths_differ :
      (text_eq (pdf_path settings.upload_dir id) (chunks_path settings.upload_dir id) ≡ false)
      × (text_eq (chunks_path settings.upload_dir id) (pdf_path settings.upload_dir id) ≡ false)
  unfolding text_eq
  paths_differ = (
    text_eq-append (stem settings.upload_dir id) (codes ".pdf") (codes ".chunks.json"),
    text_eq-append (stem settings.upload_dir id) (codes ".chunks.json") (codes ".pdf"),
  )

  -- The row and the state when the row was just created.
  abbrev new_row : UploadFile → Document
  new_row file = record {
    id = id;
    owner_id = owner_id;
    filename = filename_or file.filename id;
    storage_path = pdf_path settings.upload_dir id;
    content_type = file.content_type;
    status = pending;
    error_message = none;
    page_count = none;
    chunk_count = none;
    is_deleted = false;
  }

  abbrev created : UploadFile → World → World
  created file w = record {
    rows = w.rows ++ new_row file ∷ [];
    files = insert (pdf_path settings.upload_dir id) (pdf (body file.pieces)) w.files;
    sent = w.sent;
    send_raises = w.send_raises;
  }

  finish_upload-IsUploaded :
      (file : UploadFile) (found : Text ⊎ (List Text × ℕ)) (w : World)
      → All (λ r. (r.id == id) ≡ false) w.rows
      → stored_chunks w ≡ none
      → length (body file.pieces) ≤ settings.max_pdf_upload_size_bytes
      → IsUploaded file w
          (finish_upload settings extract_text str (new_row file) found (created file w))
  unfolding finish_upload
  finish_upload-IsUploaded file (inl message) w fresh clean fits =
      let p = pdf_path settings.upload_dir id in
      let c = chunks_path settings.upload_dir id in
      let stored = insert p (pdf (body file.pieces)) w.files in
      (
        fits,
        refl,
        refl,
        refl,
        update_last (new_row file) _ w.rows fresh,
        (
          _,
          ground (arith, lookup-erase p p stored, text_eq_iff p p),
          ground (
            arith,
            lookup-erase p c stored,
            lookup-insert p c (pdf (body file.pieces)) w.files,
            paths_differ.0,
            clean,
          ),
          refl,
          refl,
        ),
      )
  finish_upload-IsUploaded file (inr (chunks, pages)) w fresh clean fits =
      let p = pdf_path settings.upload_dir id in
      let c = chunks_path settings.upload_dir id in
      let stored = insert p (pdf (body file.pieces)) w.files in
      let rows = update_last (new_row file) _ w.rows fresh in
      let pdf_there : lookup p (insert c (sidecar chunks) stored) ≡ some (pdf (body file.pieces)) =
        ground (
          arith,
          lookup-insert c p (sidecar chunks) stored,
          lookup-insert p p (pdf (body file.pieces)) w.files,
          text_eq_iff p p,
          paths_differ.1,
        ) in
      let chunks_there : lookup c (insert c (sidecar chunks) stored) ≡ some (sidecar chunks) =
        ground (arith, lookup-insert c c (sidecar chunks) stored, text_eq_iff c c) in
      elim (Option-cases w.send_raises) [
        | inl sends ↦
            subst (IsUploaded file w) (sym (send_task-sent id _ _ sends))
              (fits, refl, refl, refl, rows, (chunks, pdf_there, chunks_there, refl, refl, refl))
        | inr (message, down) ↦
            subst (IsUploaded file w) (sym (send_task-unsent id _ _ message down)) (
              inr (
                _,
                chunks,
                message,
                down,
                refl,
                (fits, refl, refl, refl, rows),
                refl,
                pdf_there,
                chunks_there,
                refl,
              ))
      ]

  -- An upload under a fresh id returns the one row that it adds, which is the owner's and not
  -- deleted, for a body within the size limit: a pending row has the whole body on disk, a sidecar
  -- of as many chunks as it counts and one new task, and a failed row has a message, no file and no
  -- task. Or it raises, and then leaves the table and the queue as they were and no file of that
  -- id; but where the exception is that of a broker that cannot be reached, the pending row, the
  -- body and the sidecar may be left, without a task.
  pub upload-IsUploaded :
      (file : UploadFile) (w : World)
      → All (λ r. (r.id == id) ≡ false) w.rows
      → stored_pdf w ≡ none
      → stored_chunks w ≡ none
      → IsUploaded file w (upload settings extract_text str id file owner_id w)
  unfolding upload
  upload-IsUploaded file w fresh no_pdf clean =
      let p = pdf_path settings.upload_dir id in
      let c = chunks_path settings.upload_dir id in
      let limit = settings.max_pdf_upload_size_bytes in
      elim (Bool-cases (file.content_type == codes "application/pdf")) [
        | inr wrong ↦ rw wrong (inl (refl, refl, no_pdf, clean))
        | inl right ↦ elim (Bool-cases (leb (length (body file.pieces)) limit)) [
          | inr long ↦
              rw (right, write_pieces-body limit [] file.pieces (omega arith), long)
                (inl (
                  refl,
                  refl,
                  ground (arith, lookup-erase p p w.files, text_eq_iff p p),
                  ground (arith, lookup-erase p c w.files, paths_differ.0, clean),
                ))
          | inl short ↦
              rw (right, write_pieces-body limit [] file.pieces (omega arith), short)
                (finish_upload-IsUploaded file
                  (extract_chunks settings extract_text str (body file.pieces)) w fresh clean
                  (ground arith))
        ]
      ]
