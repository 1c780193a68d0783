-- ===== src/Gateway/Proxy/Forwarding.antt =====
-- What reaches document-service through the gateway, and where a request is sent.
use ai_document_analysis.Prelude.{
  ℕ, ◌≤◌, ◌≡◌, ◌≢◌, is_empty, refl, Bool, true, false, Option, none, some, List, [], ◌∷◌, ◌++◌,
  Text, codes, length, length-append, leb, ltb, ◌↔◌, starts_with, text_eq, text_eq_iff, ◌==◌,
  text-Eq, drop, arith, if◌then◌else◌,
}
use mathlib.Core.List.{append_assoc, append-nil}
use ai_document_analysis.Shared.Exceptions.{Result, ok, raise, raise_if}
use ai_document_analysis.Gateway.Proxy.{
  Request, Headers, truthy, forward_headers, request_body, upstream_path, too_large,
  check_content_length, read_chunks, read_body_with_limit, proxy_documents, method_in, route, auth,
  documents, chat, chat_query_stream, not_routed,
}

-- Whether a number in the Content-Length header is over the limit.
abbrev pub declares_over : (Text → Option ℕ) → ℕ → Option Text → Bool
declares_over int max_bytes none = false
declares_over int max_bytes (some header) = elim (int header) [
  | none ↦ false
  | some n ↦ ltb max_bytes n
]

-- A path with a query, if there is one.
abbrev pub with_query : Text → Text → Text
with_query path [] = path
with_query path (c ∷ query) = path ++ codes "?" ++ c ∷ query

documents_path :
    (path query : Text)
    → (let upstream = codes "/api/v1/" ++ codes "documents" ++ codes "/" ++ path in
        if is_empty query then upstream else upstream ++ codes "?" ++ query)
      ≡ codes "/api/v1/documents/" ++ with_query path query
documents_path path [] = refl
documents_path path (c ∷ query) = refl

upstream_path-documents :
    (path : Text) (request : Request)
    → upstream_path (codes "documents") path request
      ≡ codes "/api/v1/documents/" ++ with_query path request.query
unfolding upstream_path
upstream_path-documents path request = documents_path path request.query

-- A header is passed on exactly if it is there and not empty.
abbrev pub IsPassed : Option Text → Option Text → Type 0
IsPassed received sent = (t : Text) → (sent ≡ some t) ↔ ((received ≡ some t) × (t ≢ []))

truthy-IsPassed : (header : Option Text) → IsPassed header (truthy header)
truthy-IsPassed none t = (λ e. cc e, λ h. cc (h.0))
truthy-IsPassed (some []) t = (λ e. cc e, λ h. absurd (h.1 (cc (h.0))))
truthy-IsPassed (some (c ∷ header)) t = (λ e. (e, λ empty. cc (e, empty)), λ h. h.0)

module _ (int : Text → Option ℕ) (str : ℕ → Text) where
  check_content_length_lem :
      (max_bytes : ℕ) (header : Option Text)
      → check_content_length int str max_bytes header
        ≡ raise_if
            (declares_over int max_bytes header)
            (too_large int str max_bytes (codes "this endpoint"))
  unfolding check_content_length
  check_content_length_lem max_bytes none = refl
  check_content_length_lem max_bytes (some header) = ground arith

  read_chunks_lem :
      (max_bytes : ℕ) (so_far : List ℕ) (chunks : List (List ℕ))
      → length so_far ≤ max_bytes
      → read_chunks int str max_bytes so_far chunks ≡ (
          if leb (length (so_far ++ request_body chunks)) max_bytes
          then ok (so_far ++ request_body chunks)
          else raise (too_large int str max_bytes (codes "this end point")))
  unfolding read_chunks request_body
  read_chunks_lem max_bytes so_far [] h = ground (arith, append-nil so_far)
  read_chunks_lem max_bytes so_far (chunk ∷ chunks) h = ground (
    arith,
    length-append so_far chunk,
    length-append (so_far ++ chunk) (request_body chunks),
    append_assoc so_far chunk (request_body chunks),
    read_chunks_lem max_bytes (so_far ++ chunk) chunks,
  )

  proxy_documents_eq :
      {Response : Type 0} (upstream : Text → Text → Text → List ℕ → Headers → Result Response)
      (max_bytes : ℕ) (path : Text) (request : Request)
      → let body = request_body request.stream in
        proxy_documents int str upstream max_bytes path request ≡ (
          if declares_over int max_bytes request.content_length
          then raise (too_large int str max_bytes (codes "this endpoint"))
          else if leb (length body) max_bytes
          then upstream
              (codes "documents")
              request.method
              (upstream_path (codes "documents") path request)
              body
              (forward_headers request)
          else raise (too_large int str max_bytes (codes "this end point")))
  unfolding proxy_documents read_body_with_limit
  proxy_documents_eq upstream max_bytes path request = ground (
    arith,
    check_content_length_lem max_bytes request.content_length,
    read_chunks_lem max_bytes [] request.stream,
  )

  -- A request for documents reaches document-service, with its method and whole body, under
  -- /api/v1/documents/ with its path and its query, if any, and with those of its Authorization and
  -- Content-Type headers that are not empty, exactly if neither its Content-Length header nor its
  -- body is over the limit; else it is answered with a payload that is too large, whatever
  -- document-service would say.
  pub proxy_documents_lem :
      {Response : Type 0} (upstream : Text → Text → Text → List ℕ → Headers → Result Response)
      (max_bytes : ℕ) (path : Text) (request : Request)
      → let body = request_body request.stream in
        (headers : Headers) × IsPassed request.authorization headers.authorization
        × IsPassed request.content_type headers.content_type
        × (proxy_documents int str upstream max_bytes path request ≡ (
            if declares_over int max_bytes request.content_length
            then raise (too_large int str max_bytes (codes "this endpoint"))
            else if leb (length body) max_bytes
            then upstream
                (codes "documents")
                request.method
                (codes "/api/v1/documents/" ++ with_query path request.query)
                body
                headers
            else raise (too_large int str max_bytes (codes "this end point"))))
  unfolding forward_headers
  proxy_documents_lem upstream max_bytes path request = (
    forward_headers request,
    truthy-IsPassed request.authorization,
    truthy-IsPassed request.content_type,
    rw⁻¹ (upstream_path-documents path request)
        (proxy_documents_eq upstream max_bytes path request),
  )

-- The choice of a route, with its tests as Booleans.
choice-stream :
    (auth_path documents_path stream_path chat_path post four three : Bool) (a d c : Text)
    → (if auth_path
        then (if four then auth a else not_routed)
        else if documents_path
        then (if four then documents d else not_routed)
        else if stream_path
        then (if post
            then chat_query_stream
            else if three
            then chat (codes "query/stream")
            else not_routed)
        else if chat_path
        then (if three then chat c else not_routed)
        else not_routed)
      ≡ chat_query_stream
    → (post ≡ true) × (stream_path ≡ true)
choice-stream true documents_path stream_path chat_path post four three a d c h = grind arith
choice-stream false true stream_path chat_path post four three a d c h = grind arith
choice-stream false false true chat_path post four three a d c h = grind arith
choice-stream false false false chat_path post four three a d c h = grind arith

streamed_only :
    (method path : Text)
    → route method path ≡ chat_query_stream
    → (method ≡ codes "POST") × (path ≡ codes "/chat/query/stream")
unfolding route
streamed_only method path h =
    let (post, stream_path) =
      choice-stream (starts_with (codes "/auth/") path) (starts_with (codes "/documents/") path)
        (path == codes "/chat/query/stream") (starts_with (codes "/chat/") path)
        (method == codes "POST")
        (method_in method (codes "GET" ∷ codes "POST" ∷ codes "PATCH" ∷ codes "DELETE" ∷ []))
        (method_in method (codes "GET" ∷ codes "POST" ∷ codes "PUT" ∷ [])) (drop 6 path)
        (drop 11 path) (drop 6 path) h in
    (
      (text_eq_iff method (codes "POST")).0 post,
      (text_eq_iff path (codes "/chat/query/stream")).0 stream_path,
    )

stream_routed : route (codes "POST") (codes "/chat/query/stream") ≡ chat_query_stream
unfolding route starts_with text_eq
stream_routed = refl

-- A request is streamed exactly if it is a POST of /chat/query/stream.
pub route-stream :
    (method path : Text)
    → (route method path ≡ chat_query_stream)
      ↔ ((method ≡ codes "POST") × (path ≡ codes "/chat/query/stream"))
route-stream method path = (streamed_only method path, λ h. rw (h.0, h.1) stream_routed)
