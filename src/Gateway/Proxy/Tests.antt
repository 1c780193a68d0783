-- ===== src/Gateway/Proxy/Tests.antt =====
-- Examples: a body of three bytes against limits of four and two.
use ai_document_analysis.Prelude.{ℕ, ◌≡◌, ◌↔◌, Option, none, some, List, [], ◌∷◌, Text, codes}
use ai_document_analysis.Shared.Exceptions.{Result, ok}
use ai_document_analysis.Gateway.Proxy.{
  Request, Headers, proxy_documents, request_body, route, chat_query_stream,
}
use ai_document_analysis.Gateway.Proxy.Forwarding.{IsPassed, proxy_documents_lem, route-stream}

abbrev posted : Request
posted = record {
  method = codes "POST";
  authorization = some (codes "Bearer x");
  content_type = none;
  content_length = some (codes "3");
  query = codes "limit=2";
  stream = (1 ∷ 2 ∷ []) ∷ (3 ∷ []) ∷ [];
}

-- document-service answers with what it is sent, and `int` reads the header as 3.
abbrev echo : Text → Text → Text → List ℕ → Headers → Result (Text × Option Text × List ℕ)
echo client method path body headers = ok (path, headers.authorization, body)

proxy_documents_lem_example :
    (headers : Headers) × IsPassed (some (codes "Bearer x")) headers.authorization
    × IsPassed none headers.content_type
    × (proxy_documents (λ t. some 3) (λ n. codes "0") echo 4 [] posted
        ≡ ok (codes "/api/v1/documents/?limit=2", headers.authorization, 1 ∷ 2 ∷ 3 ∷ []))
unfolding request_body
proxy_documents_lem_example = proxy_documents_lem (λ t. some 3) (λ n. codes "0") echo 4 [] posted

posted_question_is_streamed :
    (route (codes "POST") (codes "/chat/query/stream") ≡ chat_query_stream)
    ↔ ((codes "POST" ≡ codes "POST") × (codes "/chat/query/stream" ≡ codes "/chat/query/stream"))
posted_question_is_streamed = route-stream (codes "POST") (codes "/chat/query/stream")
