-- ===== src/Gateway/Proxy.antt =====
-- gateway-service/app/api/v1/proxy.py: what is forwarded and where to. The upstream services are the
-- argument `request_upstream`; `int` of a header and `str` of a number are Python's.
pub mod Forwarding
mod Tests
use ai_document_analysis.Prelude.{
  ℕ, ◌+◌, ◌*◌, ◌/◌, Bool, true, false, ◌||◌, Option, none, some, List, [], ◌∷◌, ◌++◌, Text, ◌==◌,
  text-Eq, codes, starts_with, drop, length, is_empty, ltb, if◌then◌else◌,
}
use ai_document_analysis.Shared.Exceptions.{Exception, Result, ok, raise, raise_if, ◌>>=◌, ◌>>◌}

pub record Request : Type 0 where
  pub method : Text
  pub authorization : Option Text
  pub content_type : Option Text
  pub content_length : Option Text
  pub query : Text
  pub stream : List (List ℕ)

pub record Headers : Type 0 where
  pub authorization : Option Text
  pub content_type : Option Text

-- `if value:= …`
abbrev pub truthy : Option Text → Option Text
truthy none = none
truthy (some []) = none
truthy (some (c ∷ t)) = some (c ∷ t)

pub forward_headers : Request → Headers
forward_headers request = record {
  authorization = truthy request.authorization;
  content_type = truthy request.content_type;
}

-- `await request.body()`
pub request_body : List (List ℕ) → List ℕ
request_body [] = []
request_body (chunk ∷ chunks) = chunk ++ request_body chunks

pub upstream_path : Text → Text → Request → Text
upstream_path prefix path request =
    let upstream = codes "/api/v1/" ++ prefix ++ codes "/" ++ path in
    if is_empty request.query then upstream else upstream ++ codes "?" ++ request.query

module _ (int : Text → Option ℕ) (str : ℕ → Text) where
  abbrev pub too_large : ℕ → Text → Exception
  too_large max_bytes place = Exception.payload_too_large (
      codes "Upload exceeds the "
      ++ str (max_bytes / (1024 * 1024))
      ++ codes "MB limit for "
      ++ place)

  -- The check of the header; a length that is no number is ignored.
  pub check_content_length : ℕ → Option Text → Result (Unit {0})
  check_content_length max_bytes none = ok tt
  check_content_length max_bytes (some header) = elim (int header) [
    | none ↦ ok tt
    | some n ↦ raise_if (ltb max_bytes n) (too_large max_bytes (codes "this endpoint"))
  ]

  -- The loop over the stream, with the chunks so far.
  pub read_chunks : ℕ → List ℕ → List (List ℕ) → Result (List ℕ)
  read_chunks max_bytes so_far [] = ok so_far
  read_chunks max_bytes so_far (chunk ∷ chunks) =
      let rest = read_chunks max_bytes (so_far ++ chunk) chunks in
      if ltb max_bytes (length so_far + length chunk)
      then raise (too_large max_bytes (codes "this end point"))
      else rest

  pub read_body_with_limit : ℕ → Request → Result (List ℕ)
  unfolding check_content_length read_chunks
  read_body_with_limit max_bytes request = do
    check_content_length max_bytes request.content_length
    read_chunks max_bytes [] request.stream

  module _ {Response : Type 0}
      (request_upstream : Text → Text → Text → List ℕ → Headers → Result Response) where
    -- The first argument of `request_upstream` is the client: auth, documents or chat.
    pub proxy_auth : Text → Request → Result Response
    unfolding upstream_path forward_headers request_body
    proxy_auth path request =
        request_upstream (codes "auth") request.method (upstream_path (codes "auth") path request)
          (request_body request.stream) (forward_headers request)

    pub proxy_documents : ℕ → Text → Request → Result Response
    unfolding upstream_path forward_headers read_body_with_limit
    proxy_documents max_bytes path request = do
      body ← read_body_with_limit max_bytes request
      request_upstream (codes "documents") request.method
          (upstream_path (codes "documents") path request) body (forward_headers request)

    pub proxy_chat : Text → Request → Result Response
    unfolding upstream_path forward_headers request_body
    proxy_chat path request =
        request_upstream (codes "chat") request.method (upstream_path (codes "chat") path request)
          (request_body request.stream) (forward_headers request)

-- The routes in the order of registration. A path pattern takes what follows its prefix.
pub data Route : Type 0 where
  auth documents chat : Text → Route
  chat_query_stream not_routed : Route

abbrev pub method_in : Text → List Text → Bool
method_in method [] = false
method_in method (m ∷ methods) = (m == method) || method_in method methods

pub route : Text → Text → Route
route method path =
    let four = codes "GET" ∷ codes "POST" ∷ codes "PATCH" ∷ codes "DELETE" ∷ [] in
    let three = codes "GET" ∷ codes "POST" ∷ codes "PUT" ∷ [] in
    if starts_with (codes "/auth/") path
    then (if method_in method four then auth (drop 6 path) else not_routed)
    else if starts_with (codes "/documents/") path
    then (if method_in method four then documents (drop 11 path) else not_routed)
    else if path == codes "/chat/query/stream"
    then (if method == codes "POST"
        then chat_query_stream
        else if method_in method three
        then chat (codes "query/stream")
        else not_routed)
    else if starts_with (codes "/chat/") path
    then (if method_in method three then chat (drop 6 path) else not_routed)
    else not_routed
