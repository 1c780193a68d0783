-- ===== src/ChatService/RagService.antt =====
-- chat-service/app/services/rag_service.py and schemas/chat_query.py: `RAGService`, its sessions and
-- cached answers in Redis. Python's None is `null`. `worker` is what the call of ai-worker-service
-- comes to, `generate` and `generate_stream` are the client of the model, and `Score` is its float.
-- The calls of Redis before the model's answer run at `now`, those after it at `later`.
pub mod Answering
pub mod Sessions
pub mod Conversations
pub mod Streams
pub mod Caching
pub mod Isolation
mod Tests
use ai_document_analysis.Prelude.{
  ℕ, Bool, true, false, Option, none, some, List, [], ◌∷◌, ◌++◌, map, Text, codes, if◌then◌else◌,
}
use ai_document_analysis.Shared.Exceptions.{Exception, Result, ok, raise, ◌>>=◌}
use ai_document_analysis.Shared.Json.{
  Json, null, str, arr, obj, Items, nil, cons, end, field, is_truthy, items_of, list_of,
}
use ai_document_analysis.Shared.Redis.{cache_prefix, session_prefix, cache_get, cache_set}
use ai_document_analysis.Shared.Redis.Server.{Redis}
use ai_document_analysis.ChatService.LlmClient.{prompt_cache_key}

abbrev pub response_cache_ttl_seconds : ℕ
response_cache_ttl_seconds = 3600

abbrev pub session_ttl_seconds : ℕ
session_ttl_seconds = 86400

abbrev pub session_docs_key_prefix : Text
session_docs_key_prefix = codes "docs:"

pub record SourceChunk (Score : Type 0) : Type 0 where
  pub document_id : Text
  pub chunk_index : ℕ
  pub text : Text
  pub score : Score

abbrev pub docs_key : Text → Text → Text
docs_key owner_id session_id = session_docs_key_prefix ++ (owner_id ++ (codes ":" ++ session_id))

abbrev pub history_key : Text → Text → Text
history_key owner_id session_id = owner_id ++ (codes ":" ++ session_id)

-- What `CacheClient.get` returns.
abbrev pub or_none : Option Json → Json
or_none none = null
or_none (some j) = j

-- `j or []`
abbrev pub or_empty : Json → Json
or_empty j = if is_truthy j then j else arr nil

-- A list of strings as JSON.
abbrev pub texts_json : List Text → Json
texts_json texts = arr (items_of (map str texts))

-- `{"question": question, "answer": answer}`
abbrev pub turn : Text → Json → Json
turn question answer =
    obj (field (codes "question") (str question) (field (codes "answer") answer end))

-- `history.append(…)`: only a list has the method.
abbrev pub append : Json → Json → Result Json
append (arr items) j = ok (arr (items_of (list_of items ++ j ∷ [])))
append null j = raise (Exception.unhandled (codes "AttributeError"))
append (Json.bool b) j = raise (Exception.unhandled (codes "AttributeError"))
append (Json.number n) j = raise (Exception.unhandled (codes "AttributeError"))
append (Json.other_number t) j = raise (Exception.unhandled (codes "AttributeError"))
append (str t) j = raise (Exception.unhandled (codes "AttributeError"))
append (obj fields) j = raise (Exception.unhandled (codes "AttributeError"))

module _ (R : Redis) where
  open R use {Server}

  pub set_session_documents : Server → ℕ → Text → Text → List Text → Server
  unfolding cache_set
  set_session_documents s now owner_id session_id document_ids =
      cache_set R session_prefix s now (docs_key owner_id session_id) (texts_json document_ids)
        session_ttl_seconds

  pub get_session_documents : Server → ℕ → Text → Text → Json
  unfolding cache_get
  get_session_documents s now owner_id session_id =
      or_none (cache_get R session_prefix s now (docs_key owner_id session_id))

  pub resolve_document_scope : Server → ℕ → Text → Text → Option (List Text) → Json
  unfolding get_session_documents
  resolve_document_scope s now owner_id session_id (some document_ids) = texts_json document_ids
  resolve_document_scope s now owner_id session_id none =
      get_session_documents s now owner_id session_id

  pub get_history : Server → ℕ → Text → Text → Json
  unfolding cache_get
  get_history s now owner_id session_id =
      or_empty (or_none (cache_get R session_prefix s now (history_key owner_id session_id)))

  pub append_history : Server → ℕ → Text → Text → Text → Json → Result Server
  unfolding cache_get cache_set
  append_history s now owner_id session_id question answer =
      let key = history_key owner_id session_id in
      append (or_empty (or_none (cache_get R session_prefix s now key))) (turn question answer)
      >>= λ history. ok (cache_set R session_prefix s now key history session_ttl_seconds)
