-- ===== src/DocumentService/Routes.antt =====
-- document-service/app/api/v1/documents.py with schemas/document.py: the routes of a user's
-- documents. Whom a request comes from is `CurrentUser`; timestamps are not modelled.
pub mod Reading
mod Tests
use ai_document_analysis.Prelude.{ℕ, ◌⊎◌, Option, List, map, Text, codes}
use ai_document_analysis.Shared.Exceptions.{Result, ok, raise, ◌>>=◌}
use ai_document_analysis.Shared.Oauth.{CurrentUser}
use ai_document_analysis.DocumentService.Documents.{
  DocumentStatus, Document, World, Settings, UploadFile, upload, get, list_for_owner, delete,
}

pub record DocumentResponse : Type 0 where
  pub id : Text
  pub filename : Text
  pub content_type : Text
  pub status : DocumentStatus
  pub error_message : Option Text
  pub page_count : Option ℕ
  pub chunk_count : Option ℕ

pub record DocumentUploadResponse : Type 0 where
  pub id : Text
  pub filename : Text
  pub status : DocumentStatus
  pub message : Text

-- The fields that the response model keeps.
abbrev pub response_of : Document → DocumentResponse
response_of d = record {
  id = d.id;
  filename = d.filename;
  content_type = d.content_type;
  status = d.status;
  error_message = d.error_message;
  page_count = d.page_count;
  chunk_count = d.chunk_count;
}

abbrev pub upload_response_of : Document → DocumentUploadResponse
upload_response_of d = record {
  id = d.id;
  filename = d.filename;
  status = d.status;
  message = codes "Docuement accepted, processing has been queued";
}

-- `upload_document`; `id` is the fresh uuid4.
pub upload_document :
    Settings
    → (List ℕ → Text ⊎ (Text × ℕ))
    → (ℕ → Text)
    → Text
    → CurrentUser
    → UploadFile
    → World
    → Result DocumentUploadResponse × World
upload_document settings extract_text str id user file w =
    let (answer, w') = upload settings extract_text str id file user.id w in
    (answer >>= (λ d. ok (upload_response_of d)), w')

pub list_documents : CurrentUser → World → List DocumentResponse
list_documents user w = map response_of (list_for_owner user.id w)

pub get_document : Text → CurrentUser → World → Result DocumentResponse
get_document document_id user w = do document ← get document_id user.id w; ok (response_of document)

pub delete_document :
    {Worker : Type 0}
    → Settings
    → (Text → Text → Worker → Result ℕ × Worker)
    → Text
    → CurrentUser
    → World
    → Worker
    → Result (Unit {0}) × World × Worker
delete_document settings request document_id user w worker =
    delete settings request document_id user.id w worker
