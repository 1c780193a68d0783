-- ===== src/ChatService/QueryRoute.antt =====
-- chat-service/app/api/v1/chat_query_route.py: the routes, over RAGService. The user is given by the
-- id in a verified token. `score_json` is a score as JSON.
pub mod Frames
pub mod Endings
mod Tests
use ai_document_analysis.Prelude.{
  ℕ, Bool, true, false, Option, none, some, List, [], ◌∷◌, ◌++◌, map, concat, Text, codes,
  if◌then◌else◌,
}
use ai_document_analysis.Shared.Exceptions.{Exception, Result, ok, raise, ◌>>=◌}
use ai_document_analysis.Shared.Json.{
  Json, null, str, arr, obj, Items, nil, cons, end, field, Fetched, value, key_error, index_error,
  type_error, at_key, items_of, list_of,
}
use ai_document_analysis.Shared.Json.Codec.{Codec}
use ai_document_analysis.Shared.Redis.Server.{Redis}
use ai_document_analysis.ChatService.RagService.{
  SourceChunk, or_empty, set_session_documents, get_session_documents, get_history,
}
use ai_document_analysis.ChatService.RagService.Answering.{
  Event, Query, ChatQueryResponse, answer, answer_stream,
}

-- `exc.message` of an AppException; any other exception has none that a client is shown.
abbrev pub message_of : Exception → Option Text
message_of (Exception.not_found m) = some m
message_of (Exception.unauthorized m) = some m
message_of (Exception.validation m) = some m
message_of (Exception.forbidden m) = some m
message_of (Exception.conflict m) = some m
message_of (Exception.payload_too_large m) = some m
message_of (Exception.upstream_service m) = some m
message_of (Exception.llm_error m) = some m
message_of (Exception.llm_rate_limited m) = some m
message_of (Exception.unhandled m) = none

abbrev pub invalid : Exception
invalid = Exception.unhandled (codes "ResponseValidationError")

-- A value as one of the string fields of a response.
abbrev pub as_text : Fetched → Result Text
as_text (value (str t)) = ok t
as_text fetched = raise invalid

abbrev pub as_turn : Json → Result (Text × Text)
as_turn j = do
  question ← as_text (at_key (codes "question") j)
  answer ← as_text (at_key (codes "answer") j)
  ok (question, answer)

-- A response's list, each element read by `read`.
abbrev pub read_all : {A : Type 0} → (Json → Result A) → List Json → Result (List A)
read_all read [] = ok []
read_all read (j ∷ js) = read j >>= λ a. read_all read js >>= λ rest. ok (a ∷ rest)

abbrev pub read_list : {A : Type 0} → (Json → Result A) → Json → Result (List A)
read_list read (arr items) = read_all read (list_of items)
read_list read j = raise invalid

module _ (R : Redis) where
  open R use {Server}

  -- `set_session_documents`, `get_session_documents` and `get_chat_history`: what each responds,
  -- without the session's id, which is repeated.
  pub put_documents : Server → ℕ → Text → Text → List Text → List Text × Server
  put_documents s now user_id session_id document_ids =
      (document_ids, set_session_documents R s now user_id session_id document_ids)

  pub get_documents : Server → ℕ → Text → Text → Result (List Text)
  get_documents s now user_id session_id =
      read_list (λ j. as_text (value j))
        (or_empty (get_session_documents R s now user_id session_id))

  pub get_chat_history : Server → ℕ → Text → Text → Result (List (Text × Text))
  get_chat_history s now user_id session_id =
      read_list as_turn (get_history R s now user_id session_id)

-- `f"data: {json.dumps(event)}\n\n"`
abbrev pub frame : Codec → Json → Text
frame C j = codes "data: " ++ (C.dumps j ++ codes "\n\n")

module _ {Score : Type 0} (score_json : Score → Json) where
  -- `s.model_dump()`
  abbrev pub source_json : SourceChunk Score → Json
  source_json s = obj (
      field (codes "document_id") (str s.document_id) (
        field (codes "chunk_index") (Json.number s.chunk_index)
          (field (codes "text") (str s.text) (field (codes "score") (score_json s.score) end))))

  abbrev pub event_json : Event Score → Json
  event_json (Event.sources found) = obj (
      field (codes "type") (str (codes "sources"))
        (field (codes "sources") (arr (items_of (map source_json found))) end))
  event_json (Event.delta text) =
      obj (field (codes "type") (str (codes "delta")) (field (codes "text") text end))
  event_json (Event.done cached) =
      obj
        (field (codes "type") (str (codes "done")) (field (codes "cached") (Json.bool cached) end))

  abbrev pub error_json : Option Text → Json
  error_json message = obj (
      field (codes "type") (str (codes "error")) (
        field (codes "message")
          (str (elim message [
            | some m ↦ m
            | none ↦ codes "An unexpected error occurred while generating the response."
          ]))
          end))

  -- What `event_source` sends: every event, then the exception that ended them, if any.
  abbrev pub sent : List (Event Score) → Option Exception → List Json
  sent events none = map event_json events
  sent events (some e) = map event_json events ++ error_json (message_of e) ∷ []

  abbrev pub event_source : Codec → List (Event Score) → Option Exception → Text
  event_source C events ended = concat (map (frame C) (sent events ended))

  -- The body of the response, and the state of the server after it.
  pub query_stream :
      (C : Codec) (R : Redis)
      → (ℕ → Text)
      → (Text → Text)
      → R.Server
      → ℕ
      → ℕ
      → (Text → ℕ → Json → Text → Result (List (SourceChunk Score)))
      → (Text → List Json × Option Exception)
      → Query
      → Text × R.Server
  query_stream C R str_of sha256_hex s now later worker generate_stream q =
      let (events, ended, s') =
        answer_stream R str_of sha256_hex s now later worker generate_stream q in
      (event_source C events ended, s')
