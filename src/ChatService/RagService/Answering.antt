-- ===== src/ChatService/RagService/Answering.antt =====
-- chat-service/app/services/rag_service.py: `answer` and `answer_stream`.
use ai_document_analysis.Prelude.{
  ℕ, Bool, true, false, Option, none, some, List, [], ◌∷◌, ◌++◌, map, Text, codes, if◌then◌else◌,
}
use ai_document_analysis.Shared.Exceptions.{Exception, Result, ok, raise, ◌>>=◌, ◌>>◌}
use ai_document_analysis.Shared.Json.{Json, null, str, arr, obj}
use ai_document_analysis.Shared.Redis.{cache_prefix, cache_get, cache_set}
use ai_document_analysis.Shared.Redis.Server.{Redis}
use ai_document_analysis.ChatService.LlmClient.{prompt_cache_key}
use ai_document_analysis.ChatService.RagService.{
  SourceChunk, response_cache_ttl_seconds, or_none, resolve_document_scope, append_history,
}

pub record ChatQueryResponse (Score : Type 0) : Type 0 where
  pub answer : Text
  pub sources : List (SourceChunk Score)
  pub cached : Bool

-- What `answer_stream` yields.
pub data Event (Score : Type 0) : Type 0 where
  sources : List (SourceChunk Score) → Event Score
  delta : Json → Event Score
  done : Bool → Event Score

-- `j is not None`
abbrev pub is_some : Json → Bool
is_some null = false
is_some (Json.bool b) = true
is_some (Json.number n) = true
is_some (Json.other_number t) = true
is_some (str t) = true
is_some (arr items) = true
is_some (obj fields) = true

-- `ChatQueryResponse(answer=…)`, whose answer is a string
abbrev pub text_answer : Json → Result Text
text_answer (str t) = ok t
text_answer null = raise (Exception.unhandled (codes "ValidationError"))
text_answer (Json.bool b) = raise (Exception.unhandled (codes "ValidationError"))
text_answer (Json.number n) = raise (Exception.unhandled (codes "ValidationError"))
text_answer (Json.other_number t) = raise (Exception.unhandled (codes "ValidationError"))
text_answer (arr items) = raise (Exception.unhandled (codes "ValidationError"))
text_answer (obj fields) = raise (Exception.unhandled (codes "ValidationError"))

-- `"".join(parts)`, whose parts are strings
abbrev pub join_parts : List Json → Result Text
join_parts [] = ok []
join_parts (str t ∷ parts) = join_parts parts >>= λ rest. ok (t ++ rest)
join_parts (j ∷ parts) = raise (Exception.unhandled (codes "TypeError"))

abbrev pub build_prompt : Text → Text → Text
build_prompt question context =
    codes "Answer the question using only the context below."
    ++ codes "If the answer isn't in the context, say you don't know.\n\n"
    ++ codes "Context:\n"
    ++ context
    ++ codes "\n\nQuestion: "
    ++ question

abbrev pub cache_key_of : (Text → Text) → Text → Text → Text → Text
cache_key_of sha256_hex owner_id question context =
    prompt_cache_key sha256_hex (owner_id ++ (codes ":" ++ question)) context

module _ {Score : Type 0} (str_of : ℕ → Text) where
  -- `f"[{s.document_id}#{s.chunk_index}]{s.text}"`
  abbrev pub excerpt_of : SourceChunk Score → Text
  excerpt_of s =
      codes "[" ++ s.document_id ++ codes "#" ++ str_of s.chunk_index ++ codes "]" ++ s.text

  -- `"\n\n".join(…)`
  abbrev pub context_of : List (SourceChunk Score) → Text
  context_of [] = []
  context_of (s ∷ []) = excerpt_of s
  context_of (s ∷ t ∷ found) = excerpt_of s ++ codes "\n\n" ++ context_of (t ∷ found)

-- Who asks what in which session.
pub record Query : Type 0 where
  pub session_id : Text
  pub question : Text
  pub top_k : ℕ
  pub document_ids : Option (List Text)
  pub owner_id : Text

module _ (R : Redis) where
  open R use {Server}

  abbrev pub Kept : Type 0
  Kept = Result (Unit {0}) × Server

  -- `_append_history`, which leaves the server as it was where it fails
  abbrev pub keep_turn : Server → ℕ → Query → Json → Kept
  keep_turn s now q answer =
      elim (append_history R s now q.owner_id q.session_id q.question answer) [
        | raise e ↦ (raise e, s)
        | ok s' ↦ (ok tt, s')
      ]

  -- A new answer is cached before it is appended to the history.
  abbrev pub keep : Server → ℕ → Text → Query → Json → Kept
  keep s now key q answer =
      keep_turn (cache_set R cache_prefix s now key answer response_cache_ttl_seconds) now q answer

  -- What follows the deltas of the model.
  abbrev pub after_deltas : Server → ℕ → Text → Query → List Json × Option Exception → Kept
  after_deltas s now key q (parts, some e) = (raise e, s)
  after_deltas s now key q (parts, none) = elim (join_parts parts) [
    | raise e ↦ (raise e, s)
    | ok full_answer ↦ keep s now key q (str full_answer)
  ]

  module _ {Score : Type 0} where
    abbrev pub respond :
        Json → List (SourceChunk Score) → Bool → Kept → Result (ChatQueryResponse Score) × Server
    respond answer found cached (kept, s) = (
      (do
        kept
        text ← text_answer answer
        ok (record { answer = text; sources = found; cached = cached })),
      s,
    )

    -- The events before an exception or the end, and those that only follow without one.
    abbrev pub finish :
        List (Event Score)
        → List (Event Score)
        → Kept
        → List (Event Score) × Option Exception × Server
    finish before after (ok u, s) = (before ++ after, none, s)
    finish before after (raise e, s) = (before, some e, s)

    module _ (str_of : ℕ → Text) (sha256_hex : Text → Text) where
      -- `answer` after the search
      unfoldable pub answer_with :
          Server
          → ℕ
          → ℕ
          → (Text → Result Json)
          → Query
          → List (SourceChunk Score)
          → Result (ChatQueryResponse Score) × Server
      answer_with s now later generate q found =
          let context = context_of str_of found in
          let key = cache_key_of sha256_hex q.owner_id q.question context in
          let cached_answer = or_none (cache_get R cache_prefix s now key) in
          if is_some cached_answer
          then respond cached_answer found true (keep_turn s now q cached_answer)
          else elim (generate (build_prompt q.question context)) [
            | raise e ↦ (raise e, s)
            | ok answer ↦ respond answer found false (keep s later key q answer)
          ]

      unfoldable pub answer :
          Server
          → ℕ
          → ℕ
          → (Text → ℕ → Json → Text → Result (List (SourceChunk Score)))
          → (Text → Result Json)
          → Query
          → Result (ChatQueryResponse Score) × Server
      unfolding answer_with
      answer s now later worker generate q =
          let scope = resolve_document_scope R s now q.owner_id q.session_id q.document_ids in
          elim (worker q.question q.top_k scope q.owner_id) [
            | raise e ↦ (raise e, s)
            | ok found ↦ answer_with s now later generate q found
          ]

      -- `answer_stream` after the sources
      unfoldable pub stream_with :
          Server
          → ℕ
          → ℕ
          → (Text → List Json × Option Exception)
          → Query
          → List (SourceChunk Score)
          → List (Event Score) × Option Exception × Server
      stream_with s now later generate_stream q found =
          let context = context_of str_of found in
          let key = cache_key_of sha256_hex q.owner_id q.question context in
          let cached_answer = or_none (cache_get R cache_prefix s now key) in
          let streamed = generate_stream (build_prompt q.question context) in
          if is_some cached_answer
          then finish [] (Event.delta cached_answer ∷ Event.done true ∷ [])
              (keep_turn s now q cached_answer)
          else finish (map Event.delta streamed.0) (Event.done false ∷ [])
              (after_deltas s later key q streamed)

      unfoldable pub answer_stream :
          Server
          → ℕ
          → ℕ
          → (Text → ℕ → Json → Text → Result (List (SourceChunk Score)))
          → (Text → List Json × Option Exception)
          → Query
          → List (Event Score) × Option Exception × Server
      unfolding stream_with
      answer_stream s now later worker generate_stream q =
          let scope = resolve_document_scope R s now q.owner_id q.session_id q.document_ids in
          elim (worker q.question q.top_k scope q.owner_id) [
            | raise e ↦ ([], some e, s)
            | ok found ↦
                let (events, ended, s') = stream_with s now later generate_stream q found in
                (Event.sources found ∷ events, ended, s')
          ]
