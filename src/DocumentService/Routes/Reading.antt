-- ===== src/DocumentService/Routes/Reading.antt =====
-- Who reads a document after its upload.
use ai_document_analysis.Prelude.{
  ℕ, ◌≡◌, refl, sym, ap, ◌∙◌, subst, inl, inr, false, none, List, [], ◌∷◌, ◌++◌, Text, ◌==◌,
  text-Eq, text_eq_iff, All, ◌⊎◌, arith, if◌then◌else◌,
}
use ai_document_analysis.Prelude.Dict.{lookup}
use ai_document_analysis.Shared.Exceptions.{Result, ok, raise, ◌>>=◌, Result-cases}
use ai_document_analysis.Shared.Oauth.{CurrentUser}
use ai_document_analysis.DocumentService.Documents.{
  Document, World, Settings, UploadFile, pdf_path, chunks_path, upload, not_found,
}
use ai_document_analysis.DocumentService.Documents.Access.{rows_of, get-only}
use ai_document_analysis.DocumentService.Documents.Upload.{IsUploaded, upload-IsUploaded}
use ai_document_analysis.DocumentService.Routes.{
  DocumentResponse, DocumentUploadResponse, response_of, upload_response_of, upload_document,
  get_document,
}

rows_of_fresh :
    (id : Text) (rows : List Document) (d : Document)
    → All (λ r. (r.id == id) ≡ false) rows
    → d.id ≡ id
    → rows_of id (rows ++ d ∷ []) ≡ d ∷ []
rows_of_fresh id [] d h e = ground (arith, text_eq_iff d.id id, e)
rows_of_fresh id (r ∷ rows) d h e = ground (arith, h.0, rows_of_fresh id rows d h.1 e)

get_document-get :
    (id : Text) (reader : CurrentUser) (w : World) (d : Document)
    → rows_of id w.rows ≡ d ∷ []
    → d.is_deleted ≡ false
    → get_document id reader w
      ≡ (if d.owner_id == reader.id then ok (response_of d) else raise not_found)
unfolding get_document
get_document-get id reader w d only kept =
    ap (λ r. r >>= (λ x. ok (response_of x))) (get-only id reader.id w d only)
    ∙ ground (arith, kept)

upload_document-upload :
    (settings : Settings) (extract_text : List ℕ → Text ⊎ (Text × ℕ)) (str : ℕ → Text) (id : Text)
    (user : CurrentUser) (file : UploadFile) (w : World) (r : DocumentUploadResponse)
    → (upload_document settings extract_text str id user file w).0 ≡ ok r
    → (d : Document) × (r ≡ upload_response_of d)
      × ((upload settings extract_text str id file user.id w).0 ≡ ok d)
unfolding upload_document
upload_document-upload settings extract_text str id user file w r e =
    elim (Result-cases (upload settings extract_text str id file user.id w).0) [
      | inl (d, done) ↦ let e' : ok (upload_response_of d) ≡ ok r = rw done at e in (d, cc e', done)
      | inr (x, failed) ↦
          let e' : ◌≡◌ {A = Result DocumentUploadResponse} (raise x) (ok r) = rw failed at e in
          cc e'
    ]

-- After an upload under a fresh id that was answered, the user who made it reads the document with
-- the id, the file name and the status of that answer, and every other user is told that there is
-- no such document.
pub upload_document-get_document :
    (settings : Settings) (extract_text : List ℕ → Text ⊎ (Text × ℕ)) (str : ℕ → Text) (id : Text)
    (user : CurrentUser) (file : UploadFile) (w : World) (r : DocumentUploadResponse)
    → All (λ d. (d.id == id) ≡ false) w.rows
    → lookup (pdf_path settings.upload_dir id) w.files ≡ none
    → lookup (chunks_path settings.upload_dir id) w.files ≡ none
    → (upload_document settings extract_text str id user file w).0 ≡ ok r
    → let w' = (upload_document settings extract_text str id user file w).1 in
      (s : DocumentResponse) × (s.id ≡ r.id)
      × (s.filename ≡ r.filename)
      × (s.status ≡ r.status)
      × ((reader : CurrentUser)
          → get_document id reader w' ≡ (if user.id == reader.id then ok s else raise not_found))
unfolding upload_document
upload_document-get_document settings extract_text str id user file w r fresh no_pdf clean e =
    let (d, answer, done) = upload_document-upload settings extract_text str id user file w r e in
    let w' : World = (upload settings extract_text str id file user.id w).1 in
    let (fits, same_id, same_owner, kept, rows, files) =
      subst (λ x. IsUploaded settings extract_text str id user.id file w (x, w')) done
        (upload-IsUploaded settings extract_text str id user.id file w fresh no_pdf clean) in
    (
      response_of d,
      ap (λ x. x.id) (sym answer),
      ap (λ x. x.filename) (sym answer),
      ap (λ x. x.status) (sym answer),
      λ reader.
          get_document-get id reader w' d
            (ap (rows_of id) rows ∙ rows_of_fresh id w.rows d fresh same_id) kept
          ∙ rw same_owner refl,
    )
