-- ===== src/ChatService/RagService/Tests.antt =====
-- RAGService over a server in memory, the store of one process and a model that says one thing.
use ai_document_analysis.Prelude.{
  ◌++◌, take, All-excludes, ℕ, ◌+◌, ◌≡◌, ◌≢◌, ◌≤◌, ◌<◌, refl, true, false, Option, none, List, [],
  ◌∷◌, Text, codes, All, arith,
}
use ai_document_analysis.Shared.Exceptions.{Exception, Result, ok}
use ai_document_analysis.Shared.Json.{Json, str, arr, items_of}
use ai_document_analysis.Shared.Redis.{cache_prefix, cache_get}
use ai_document_analysis.Shared.Redis.Memory.{memory, Memory, empty}
use ai_document_analysis.AiWorker.FaissStore.{reload_if_stale, add}
use ai_document_analysis.AiWorker.FaissStore.Types.{Outcome, Store, Files}
use ai_document_analysis.AiWorker.FaissStore.IdIndex.{id_index, empty_dir, fresh_store}
use ai_document_analysis.ChatService.RagService.{
  SourceChunk, texts_json, turn, get_history, append_history, get_session_documents,
  set_session_documents, resolve_document_scope,
}
use ai_document_analysis.ChatService.RagService.Answering.{
  ChatQueryResponse, Event, Query, cache_key_of, context_of, answer_with, answer, answer_stream,
}
use ai_document_analysis.ChatService.RagService.Sessions.{
  IsUuid, IsOther, append_history-IsAppended, set_session_documents-IsScoped,
}
use ai_document_analysis.ChatService.RagService.Conversations.{
  Recording, Histories, record_turns, append_all, Represents, append_all-Represents,
}
use ai_document_analysis.ChatService.RagService.Streams.{IsAlike, answer_stream-IsAlike}
use ai_document_analysis.ChatService.RagService.Caching.{answer_with-IsCached}
use ai_document_analysis.ChatService.RagService.Isolation.{IsOwnChunk, search_chunks, answer-own}

abbrev alice : Text
alice = codes "11111111-1111-1111-1111-111111111111"

alice-IsUuid : IsUuid alice
alice-IsUuid = record { no_colon = All-excludes 58 alice refl; length_36 = refl }

abbrev chat : Text
chat = codes "chat"

abbrev hello : Json
hello = str (codes "Hello")

append_history-IsAppended_example :
    (s' : Memory) × (append_history memory empty 5 alice chat (codes "Hi") hello ≡ ok s')
    × (get_history memory s' 7 alice chat ≡ arr (items_of (turn (codes "Hi") hello ∷ [])))
    × ((other sid' : Text)
        → IsUuid other
        → (IsOther alice chat other sid'
            → get_history memory s' 7 other sid' ≡ get_history memory empty 7 other sid')
          × (get_session_documents memory s' 7 other sid'
              ≡ get_session_documents memory empty 7 other sid'))
unfolding get_history cache_get
append_history-IsAppended_example =
    append_history-IsAppended memory empty 5 7 alice chat (codes "Hi") hello [] alice-IsUuid
      (omega arith) (omega arith) refl

scope_is_set :
    let s' = set_session_documents memory empty 5 alice chat (codes "d1" ∷ []) in
    (resolve_document_scope memory s' 7 alice chat none ≡ texts_json (codes "d1" ∷ []))
    × ((other sid' : Text)
        → IsUuid other
        → (IsOther alice chat other sid'
            → resolve_document_scope memory s' 7 other sid' none
              ≡ resolve_document_scope memory empty 7 other sid' none)
          × (get_history memory s' 7 other sid' ≡ get_history memory empty 7 other sid'))
scope_is_set =
    set_session_documents-IsScoped memory empty 5 7 alice chat (codes "d1" ∷ []) alice-IsUuid
      (omega arith) (omega arith)

abbrev digits : ℕ → Text
digits n = []

-- A hash of 64 characters, which many texts share.
abbrev hash : Text → Text
hash t = take 64 t

abbrev question : Query
question = record {
  session_id = chat;
  question = codes "Hi";
  top_k = 5;
  document_ids = none;
  owner_id = alice;
}

abbrev model : Text → Result Json
model prompt = ok hello

abbrev streaming_model : Text → List Json × Option Exception
streaming_model prompt = (str (codes "Hel") ∷ str (codes "lo") ∷ [], none)

abbrev excerpt : SourceChunk ℕ
excerpt = record { document_id = codes "d1"; chunk_index = 0; text = codes "x"; score = 1 }

abbrev worker : Text → ℕ → Json → Text → Result (List (SourceChunk ℕ))
worker query top_k docs owner = ok (excerpt ∷ [])

answer_stream-IsAlike_example :
    IsAlike
      (answer_stream memory digits hash empty 5 7 worker streaming_model question)
      (answer memory digits hash empty 5 7 worker model question)
answer_stream-IsAlike_example =
    answer_stream-IsAlike memory digits hash empty 5 7 question worker model streaming_model
      (λ prompt. (codes "Hello", (refl, refl)))

-- The store with two chunks of a document of alice's.
abbrev indexed : Outcome ℕ × Store (List ℕ) × Files (List ℕ)
indexed =
    add id_index 5 6 (codes "d1") (codes "x" ∷ codes "y" ∷ []) (1 ∷ 2 ∷ []) alice fresh_store
      empty_dir

answer-own_example :
    let worker = search_chunks id_index (λ text. 7) [] indexed.1 indexed.2 in
    (found : List (SourceChunk ℕ)) × All
      (IsOwnChunk alice none (reload_if_stale id_index indexed.2 indexed.1).metadata)
      found
    × ((r : ChatQueryResponse ℕ)
        → (answer memory digits hash empty 5 7 worker model question).0 ≡ ok r
        → r.sources ≡ found)
    × ((rest : List (Event ℕ)) × ((answer_stream memory digits hash empty 5 7 worker streaming_model
            question).0
          ≡ Event.sources found ∷ rest))
unfolding resolve_document_scope get_session_documents cache_get
answer-own_example =
    answer-own memory id_index (λ text. 7) [] indexed.1 indexed.2 digits hash empty 5 7 question
      model streaming_model none (λ e. cc) refl

abbrev found : List (SourceChunk ℕ)
found = excerpt ∷ []

answer_with-IsCached_example :
    (s' : Memory) × (answer_with memory digits hash empty 5 7 model question found
      ≡ (ok (record { answer = codes "Hello"; sources = found; cached = false }), s'))
    × ((now' later' : ℕ) (generate' : Text → Result Json) (q' : Query) (turns' : List Json)
        → 7 ≤ now'
        → now' < 7 + 3600000
        → q'.owner_id ≡ alice
        → q'.question ≡ codes "Hi"
        → get_history memory s' now' q'.owner_id q'.session_id ≡ arr (items_of turns')
        → (answer_with memory digits hash s' now' later' generate' q' found).0
          ≡ ok (record { answer = codes "Hello"; sources = found; cached = true }))
    × ((now' : ℕ) (other question' context' : Text)
        → 7 ≤ now'
        → IsUuid other
        → alice ≢ other
        → (let x = (alice ++ (codes ":" ++ codes "Hi")) ++ codes "|" ++ context_of digits found in
            let y = (other ++ (codes ":" ++ question')) ++ codes "|" ++ context' in
            hash x ≡ hash y → x ≡ y)
        → cache_get memory cache_prefix s' now' (cache_key_of hash other question' context')
          ≡ cache_get memory cache_prefix empty now' (cache_key_of hash other question' context'))
unfolding get_history cache_get
answer_with-IsCached_example =
    answer_with-IsCached memory digits hash found empty 5 7 model question [] (codes "Hello")
      alice-IsUuid refl refl refl

abbrev first_turn : Recording
first_turn = record {
  at = 5;
  owner_id = alice;
  session_id = chat;
  question = codes "Hi";
  answer = hello;
}

abbrev second_turn : Recording
second_turn = record {
  at = 9;
  owner_id = alice;
  session_id = codes "other";
  question = codes "Bye";
  answer = hello;
}

abbrev no_history : Histories
no_history owner sid = []

append_all-Represents_example :
    (s' : Memory) × (append_all memory (first_turn ∷ second_turn ∷ []) empty ≡ ok s')
    × Represents memory 9 1000 s' (record_turns (first_turn ∷ second_turn ∷ []) no_history)
unfolding get_history cache_get
append_all-Represents_example =
    append_all-Represents memory 0 1000 empty no_history (first_turn ∷ second_turn ∷ [])
      (omega arith)
      (
        alice-IsUuid,
        omega arith,
        omega arith,
        (alice-IsUuid, omega arith, omega arith, omega arith),
      )
      (λ t owner sid from before known. refl)
