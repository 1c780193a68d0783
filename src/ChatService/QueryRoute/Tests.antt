-- ===== src/ChatService/QueryRoute/Tests.antt =====
-- Runs of the streaming route.
use ai_document_analysis.Prelude.{
  ℕ, ◌≡◌, true, false, Option, none, some, List, [], ◌∷◌, ◌++◌, Text, codes, All,
}
use ai_document_analysis.Shared.Exceptions.{Exception, Result, ok}
use ai_document_analysis.Shared.Json.{Json, str}
use ai_document_analysis.Shared.Json.Postfix.{postfix}
use ai_document_analysis.Shared.Redis.Memory.{memory, empty}
use ai_document_analysis.ChatService.RagService.{SourceChunk}
use ai_document_analysis.ChatService.RagService.Answering.{Query, answer_stream}
use ai_document_analysis.ChatService.QueryRoute.{sent, query_stream}
use ai_document_analysis.ChatService.QueryRoute.Frames.{read_events, query_stream-read_events}
use ai_document_analysis.ChatService.QueryRoute.Endings.{is_last, sent-answer_stream}

abbrev digits : ℕ → Text
digits n = []

abbrev hash : Text → Text
hash t = t

abbrev score_json : ℕ → Json
score_json n = Json.number n

abbrev question : Query
question = record {
  session_id = codes "chat";
  question = codes "Hi";
  top_k = 5;
  document_ids = none;
  owner_id = codes "alice";
}

-- A model that breaks off after one text.
abbrev broken_model : Text → List Json × Option Exception
broken_model prompt = (str (codes "Hel") ∷ [], some (Exception.llm_error (codes "gone")))

abbrev excerpt : SourceChunk ℕ
excerpt = record { document_id = codes "d1"; chunk_index = 0; text = codes "x"; score = 1 }

abbrev worker : Text → ℕ → Json → Text → Result (List (SourceChunk ℕ))
worker query top_k docs owner = ok (excerpt ∷ [])

query_stream-read_events_example :
    let streamed = answer_stream memory digits hash empty 5 7 worker broken_model question in
    read_events postfix
      (query_stream score_json postfix memory digits hash empty 5 7 worker broken_model question).0
    ≡ sent score_json streamed.0 streamed.1
query_stream-read_events_example =
    query_stream-read_events postfix score_json memory digits hash empty 5 7 worker broken_model
      question

sent-answer_stream_example :
    let streamed = answer_stream memory digits hash empty 5 7 worker broken_model question in
    (before : List Json) × (last : Json) × (sent score_json streamed.0 streamed.1
      ≡ before ++ last ∷ [])
    × All (λ j. is_last j ≡ false) before
    × (is_last last ≡ true)
sent-answer_stream_example =
    sent-answer_stream score_json memory digits hash empty 5 7 question worker broken_model
