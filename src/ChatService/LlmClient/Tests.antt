-- ===== src/ChatService/LlmClient/Tests.antt =====
-- Runs of the client of the language model.
use ai_document_analysis.Prelude.{
  ℕ, zero, suc, ◌≡◌, refl, ◌⊎◌, true, Option, none, some, [], ◌∷◌, map, Text, codes, take, text_eq,
  arith, ◌≤◌, ◌<◌,
}
use ai_document_analysis.Shared.Exceptions.{Exception, Result, ok, raise}
use ai_document_analysis.Shared.Json.{Json, str, obj, end, field}
use ai_document_analysis.Shared.Json.Codec.{Codec}
use ai_document_analysis.Shared.Json.Postfix.{postfix}
use ai_document_analysis.Shared.ServiceClient.{Response}
use ai_document_analysis.ChatService.LlmClient.{
  Settings, Opened, generate, generate_stream, post_with_rate_limit_retry,
}
use ai_document_analysis.ChatService.LlmClient.Retries.{
  HasNoHeader, is_limited, post_with_rate_limit_retry-IsAnswered,
}
use ai_document_analysis.ChatService.LlmClient.Generating.{generate-type_error, generate-bad_header}
use ai_document_analysis.ChatService.LlmClient.Streaming.{
  chunk_of, event_lines, generate_stream-event_lines,
}

abbrev settings : Settings
settings = record { gemini_api_key = codes "key"; gemini_model = codes "flash" }

abbrev digits : ℕ → Text
digits n = []

abbrev shown : Json ⊎ Text → Text
shown body = []

abbrev no_float : Text → Option ℕ
no_float header = none

abbrev hello : Json
hello = chunk_of postfix shown (codes "Hello")

abbrev limited : Option Text → Response
limited header = record {
  status_code = 429;
  content = Codec.dumps postfix hello;
  retry_after = header;
}

abbrev answered : Json → Response
answered body = record { status_code = 200; content = Codec.dumps postfix body; retry_after = none }

-- The first post is rate limited, the others are answered.
abbrev post : ℕ → Result Response
post zero = ok (limited none)
post (suc i) = ok (answered hello)

no_header : (i : ℕ) → HasNoHeader (post i)
no_header zero = refl
no_header (suc i) = refl

post_with_rate_limit_retry-IsAnswered_example :
    (k : ℕ) × (k ≤ 3)
    × ((post_with_rate_limit_retry no_float post).0 ≡ post k)
    × ((post_with_rate_limit_retry no_float post).1 ≡ take k (1000 ∷ 2000 ∷ 4000 ∷ []))
    × ((j : ℕ) → j < k → is_limited (post j) ≡ true)
    × (is_limited (post k) ≡ true → k ≡ 3)
post_with_rate_limit_retry-IsAnswered_example =
    post_with_rate_limit_retry-IsAnswered no_float post no_header

-- An answer whose candidates are null.
abbrev blocked : Json
blocked = obj (field (codes "candidates") Json.null end)

generate-type_error_example :
    (generate postfix shown digits no_float settings
      (λ url body i. ok (answered blocked))
      (codes "Hi")).0
    ≡ raise (Exception.unhandled (codes "TypeError"))
unfolding text_eq
generate-type_error_example =
    generate-type_error postfix shown digits no_float settings (λ url body i. ok (answered blocked))
      (codes "Hi") (answered blocked) blocked refl refl (omega arith)
      (Codec.loads-dumps postfix blocked) refl refl

generate-bad_header_example :
    generate postfix shown digits no_float settings
      (λ url body i. ok (limited (some (codes "Wed"))))
      (codes "Hi")
    ≡ (raise (Exception.unhandled (codes "could not convert string to float")), [])
generate-bad_header_example =
    generate-bad_header postfix shown digits no_float settings
      (λ url body i. ok (limited (some (codes "Wed")))) (codes "Hi") (limited (some (codes "Wed")))
      87 (codes "ed") refl refl refl refl refl

abbrev opened : Opened
opened = record {
  response = answered hello;
  lines = event_lines postfix shown (codes "Hel" ∷ codes "lo" ∷ []);
  broken = none;
}

two_pieces_streamed :
    generate_stream postfix shown digits settings (λ url body. ok opened) (codes "Hi")
    ≡ (map str (codes "Hel" ∷ codes "lo" ∷ []), none)
two_pieces_streamed =
    generate_stream-event_lines postfix shown digits settings (λ url body. ok opened) (codes "Hi")
      opened (codes "Hel" ∷ codes "lo" ∷ []) refl (λ url body. refl) (omega arith) refl refl
      (refl, (refl, tt))
