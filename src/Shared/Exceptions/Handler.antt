-- ===== src/Shared/Exceptions/Handler.antt =====
-- shared/exceptions/handlers.py: the response to an exception of the services.
use ai_document_analysis.Prelude.{
  ℕ, ◌≡◌, refl, sym, ap, ◌∙◌, Option, none, some, List, [], ◌∷◌, Text, codes, ◌==◌, text-Eq,
  text_eq, if◌then◌else◌,
}
use ai_document_analysis.Shared.Json.{Json, str, obj, end, field}
use ai_document_analysis.Shared.Exceptions.{Exception, status_code}

-- `exc.__class__.__name__` and `exc.message`; none for an exception that is no AppException.
abbrev pub class_of : Exception → Option (Text × Text)
class_of (Exception.not_found m) = some (codes "NotFoundException", m)
class_of (Exception.unauthorized m) = some (codes "UnauthorizedException", m)
class_of (Exception.validation m) = some (codes "ValidationException", m)
class_of (Exception.forbidden m) = some (codes "ForbiddenException", m)
class_of (Exception.conflict m) = some (codes "ConflictException", m)
class_of (Exception.payload_too_large m) = some (codes "PayloadTooLargeException", m)
class_of (Exception.upstream_service m) = some (codes "UpstreamServiceError", m)
class_of (Exception.llm_error m) = some (codes "LLMError", m)
class_of (Exception.llm_rate_limited m) = some (codes "LLMRateLimitedError", m)
class_of (Exception.unhandled m) = none

abbrev pub content : Text → Text → Json
content name message =
    obj (field (codes "error") (str name) (field (codes "message") (str message) end))

-- `app_exception_handler`: the status code and the content; none where it is not called.
pub app_exception_handler : Exception → Option (ℕ × Json)
unfolding status_code
app_exception_handler e = elim (class_of e) [
  | none ↦ none
  | some (name, message) ↦ some (status_code e, content name message)
]

-- What a client reads from the names in a response.
abbrev choose : Text → List (Text × Exception) → Option Exception
choose name [] = none
choose name ((n, e) ∷ rest) = if n == name then some e else choose name rest

abbrev pub exception_of : Json → Option Exception
exception_of (obj (field k (str name) (field l (str m) end))) = choose name (
    (codes "NotFoundException", Exception.not_found m)
    ∷ (codes "UnauthorizedException", Exception.unauthorized m)
    ∷ (codes "ValidationException", Exception.validation m)
    ∷ (codes "ForbiddenException", Exception.forbidden m)
    ∷ (codes "ConflictException", Exception.conflict m)
    ∷ (codes "PayloadTooLargeException", Exception.payload_too_large m)
    ∷ (codes "UpstreamServiceError", Exception.upstream_service m)
    ∷ (codes "LLMError", Exception.llm_error m)
    ∷ (codes "LLMRateLimitedError", Exception.llm_rate_limited m)
    ∷ [])
exception_of j = none

read_back :
    (e : Exception) (status s : ℕ) (j k : Json)
    → exception_of k ≡ some e
    → s ≡ status_code e
    → ◌≡◌ {A = Option (ℕ × Json)} (some (s, k)) (some (status, j))
    → (exception_of j ≡ some e) × (status ≡ status_code e)
read_back e status s j k read same h =
    let (same_status, same_content) : (s ≡ status) × (k ≡ j) = (cc h, cc h) in
    (ap exception_of (sym same_content) ∙ read, sym same_status ∙ same)

-- The response to an exception tells its class and its message.
pub exception_of-app_exception_handler :
    (e : Exception) (status : ℕ) (j : Json)
    → app_exception_handler e ≡ some (status, j)
    → (exception_of j ≡ some e) × (status ≡ status_code e)
unfolding app_exception_handler text_eq
exception_of-app_exception_handler (Exception.unhandled m) status j h = cc h
exception_of-app_exception_handler e status j h = read_back e status _ j _ refl refl h
