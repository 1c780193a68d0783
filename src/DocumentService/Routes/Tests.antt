-- ===== src/DocumentService/Routes/Tests.antt =====
-- Ada uploads three bytes and reads the document; bob does not.
use ai_document_analysis.Prelude.{
  ℕ, ◌≡◌, refl, inr, ◌⊎◌, none, some, List, [], ◌∷◌, Text, codes, strip, text_eq, ◌==◌, text-Eq,
  if◌then◌else◌,
}
use ai_document_analysis.Shared.Exceptions.{ok, raise}
use ai_document_analysis.Shared.Oauth.{CurrentUser}
use ai_document_analysis.DocumentService.Chunker.{chunk_text}
use ai_document_analysis.DocumentService.Documents.{
  pending, World, Settings, UploadFile, send_task, upload, not_found,
}
use ai_document_analysis.DocumentService.Routes.{
  DocumentResponse, DocumentUploadResponse, upload_document, get_document,
}
use ai_document_analysis.DocumentService.Routes.Reading.{upload_document-get_document}

abbrev settings : Settings
settings = record {
  upload_dir = codes "up";
  max_pdf_upload_size_bytes = 4;
  chunk_size = 10;
  chunk_overlap = 2;
}

-- The text of a PDF is its bytes.
abbrev extract_text : List ℕ → Text ⊎ (Text × ℕ)
extract_text bytes = inr (bytes, 1)

abbrev zero_text : ℕ → Text
zero_text n = codes "0"

abbrev three_bytes : UploadFile
three_bytes = record {
  content_type = codes "application/pdf";
  filename = some (codes "r.pdf");
  pieces = (97 ∷ 98 ∷ []) ∷ (99 ∷ []) ∷ [];
}

abbrev user_named : Text → CurrentUser
user_named name = record {
  id = name;
  role = none;
  raw_claims = record {
    sub = some name;
    type = none;
    jti = none;
    iat = none;
    exp = none;
    email = none;
    role = none;
  };
}

abbrev ada : CurrentUser
ada = user_named (codes "ada")

abbrev empty_world : World
empty_world = record { rows = []; files = []; sent = []; send_raises = none }

abbrev answer : DocumentUploadResponse
answer = record {
  id = codes "1";
  filename = codes "r.pdf";
  status = pending;
  message = codes "Docuement accepted, processing has been queued";
}

answered :
    (upload_document settings extract_text zero_text (codes "1") ada three_bytes empty_world).0
    ≡ ok answer
unfolding upload_document upload send_task chunk_text strip text_eq
answered = refl

upload_document-get_document_example :
    let w' =
      (upload_document settings extract_text zero_text (codes "1") ada three_bytes empty_world).1 in
    (s : DocumentResponse) × (s.id ≡ codes "1")
    × (s.filename ≡ codes "r.pdf")
    × (s.status ≡ pending)
    × ((reader : CurrentUser)
        → get_document (codes "1") reader w'
          ≡ (if codes "ada" == reader.id then ok s else raise not_found))
upload_document-get_document_example =
    upload_document-get_document settings extract_text zero_text (codes "1") ada three_bytes
      empty_world answer tt refl refl answered
