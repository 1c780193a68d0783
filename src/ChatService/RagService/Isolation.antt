-- ===== src/ChatService/RagService/Isolation.antt =====
-- chat-service/app/services/rag_service.py over ai-worker-service: the search of `RAGService`
-- through the worker's route, and whose excerpts a user is shown.
use ai_document_analysis.Prelude.{
  ℕ, ◌≡◌, ◌≢◌, refl, inl, inr, Bool, true, false, Option, none, some, List, [], ◌∷◌, map, Text,
  codes, All, Bool-cases,
}
use ai_document_analysis.Prelude.Dict.{Dict}
use ai_document_analysis.Shared.Exceptions.{Exception, Result, ok, raise, Result-cases}
use ai_document_analysis.Shared.Json.{Json, null, str, arr, Items, nil, cons}
use ai_document_analysis.Shared.Redis.{cache_prefix, cache_get}
use ai_document_analysis.Shared.Redis.Server.{Redis}
use ai_document_analysis.AiWorker.Api.{SearchResultItem, item_of, search_route}
use ai_document_analysis.AiWorker.FaissStore.{reload_if_stale}
use ai_document_analysis.AiWorker.FaissStore.Interface.{Faiss}
use ai_document_analysis.AiWorker.FaissStore.Types.{Meta, Files, Store, Hit}
use ai_document_analysis.AiWorker.FaissStore.Sources.{IsSource, search_store-IsSource}
use ai_document_analysis.ChatService.RagService.{SourceChunk, or_none, resolve_document_scope}
use ai_document_analysis.ChatService.RagService.Answering.{
  ChatQueryResponse, Event, Query, Kept, is_some, text_answer, build_prompt, cache_key_of,
  context_of, keep_turn, keep, respond, answer_with, answer, answer_stream, stream_with,
}

abbrev texts_in : Items → Option (List Text)
texts_in nil = some []
texts_in (cons (str t) items) = elim (texts_in items) [
  | none ↦ none
  | some texts ↦ some (t ∷ texts)
]
texts_in (cons j items) = none

-- `document_ids: list[str] | None`; none is an error of 422.
abbrev pub documents_of : Json → Option (Option (List Text))
documents_of null = some none
documents_of (arr items) = elim (texts_in items) [ none ↦ none | some texts ↦ some (some texts) ]
documents_of j = none

-- `SourceChunk(**r)`
abbrev pub chunk_of : {Score : Type 0} → SearchResultItem Score → SourceChunk Score
chunk_of item = record {
  document_id = item.document_id;
  chunk_index = item.chunk_index;
  text = item.text;
  score = item.score;
}

module _ (F : Faiss) (embed_query : Text → F.Vector) (failure : Text) (s : Store F.Index)
    (files : Files F.Index) where
  open F use {Score}

  -- `_search_and_build_context`: an error of 500 is raised by the service client, and the answer to
  -- a request that is not valid has no results.
  pub search_chunks : Text → ℕ → Json → Text → Result (List (SourceChunk Score))
  search_chunks question top_k document_ids owner_id = elim (documents_of document_ids) [
    | none ↦ raise (Exception.unhandled (codes "KeyError"))
    | some docs ↦
        elim (search_route F embed_query
          (record { query = question; top_k = top_k; owner_id = owner_id; document_ids = docs }) s
          files).0 [
            | raise e ↦ raise (Exception.upstream_service failure)
            | ok items ↦ ok (map chunk_of items)
          ]
  ]

-- An excerpt that stands in the store as one of this owner's, within the documents asked for.
pub record IsOwnChunk {Score : Type 0} (owner : Text) (docs : Option (List Text))
    (metadata : Dict ℕ Meta) (c : SourceChunk Score) : Type 0 where
  meta : Meta
  source : IsSource owner docs metadata meta
  same_document : c.document_id ≡ meta.document_id
  same_place : c.chunk_index ≡ meta.chunk_index
  same_text : c.text ≡ meta.text

All-IsOwnChunk :
    {Score : Type 0} (owner : Text) (docs : Option (List Text)) (metadata : Dict ℕ Meta)
    (hits : List (Hit Score))
    → All (λ h. IsSource owner docs metadata h.meta) hits
    → All (IsOwnChunk owner docs metadata) (map chunk_of (map item_of hits))
All-IsOwnChunk owner docs metadata [] h = tt
All-IsOwnChunk owner docs metadata (hit ∷ hits) h = (
  record {
    meta = hit.meta;
    source = h.0;
    same_document = refl;
    same_place = refl;
    same_text = refl;
  },
  All-IsOwnChunk owner docs metadata hits h.1,
)

raise_ok : {A : Type 0} (e : Exception) (a : A) → raise e ≡ ok a → ⊥
raise_ok e a h = cc

module _ (R : Redis) {Score : Type 0} where
  respond-sources :
      (j : Json) (found : List (SourceChunk Score)) (cached : Bool) (kept : Kept R)
      (r : ChatQueryResponse Score)
      → (respond R j found cached kept).0 ≡ ok r
      → r.sources ≡ found
  respond-sources j found cached (raise e, s) r h = cc
  respond-sources j found cached (ok u, s) r h = elim (Result-cases (text_answer j)) [
    | inr (e, bad) ↦ cc (h, bad)
    | inl (t, good) ↦
        let h' : ok (record { answer = t; sources = found; cached = cached }) ≡ ok r =
          rw good at h in
        cc
  ]

  module _ (str_of : ℕ → Text) (sha256_hex : Text → Text) (s : R.Server) (now later : ℕ)
      (generate : Text → Result Json) (q : Query) where
    answer_with-sources :
        (found : List (SourceChunk Score)) (r : ChatQueryResponse Score)
        → (answer_with R str_of sha256_hex s now later generate q found).0 ≡ ok r
        → r.sources ≡ found
    unfolding answer_with
    answer_with-sources found r h =
        let context = context_of str_of found in
        let key = cache_key_of sha256_hex q.owner_id q.question context in
        let cached = or_none (cache_get R cache_prefix s now key) in
        elim (Bool-cases (is_some cached)) [
          | inl hit ↦ respond-sources cached found true (keep_turn R s now q cached) r (rw hit at h)
          | inr miss ↦ elim (Result-cases (generate (build_prompt q.question context))) [
            | inr (e, failed) ↦ absurd (raise_ok e r (rw (miss, failed) at h))
            | inl (j, said) ↦
                respond-sources j found false (keep R s later key q j) r (rw (miss, said) at h)
          ]
        ]

module _ (R : Redis) (F : Faiss) (embed_query : Text → F.Vector) (failure : Text)
    (store : Store F.Index) (files : Files F.Index) (str_of : ℕ → Text) (sha256_hex : Text → Text)
    (s : R.Server) (now later : ℕ) (q : Query) where
  open F use {Score}

  abbrev scope : Json
  scope = resolve_document_scope R s now q.owner_id q.session_id q.document_ids

  search_chunks-own :
      (asked : Json) (docs : Option (List Text))
      → q.owner_id ≢ []
      → documents_of asked ≡ some docs
      → (found : List (SourceChunk Score)) × (search_chunks F embed_query failure store files
            q.question q.top_k asked q.owner_id
          ≡ ok found)
        × All (IsOwnChunk q.owner_id docs (reload_if_stale F files store).metadata) found
  unfolding search_chunks search_route
  search_chunks-own asked docs known valid =
      let (hits, e, all) =
        search_store-IsSource F (embed_query q.question) q.owner_id q.top_k docs store files
          known in
      (
        map chunk_of (map item_of hits),
        rw (valid, search_chunks, e) refl,
        All-IsOwnChunk q.owner_id docs (reload_if_stale F files store).metadata hits all,
      )

  -- Over the worker's route, a question of a user with an id and a scope that is a list of
  -- documents or none finds excerpts each of which stands in the vector store as a chunk of this
  -- user and, where the scope names documents, of one of them. The answer, if one is returned, has
  -- exactly these sources, and the stream begins with them.
  pub answer-own :
      (generate : Text → Result Json) (generate_stream : Text → List Json × Option Exception)
      (docs : Option (List Text))
      → q.owner_id ≢ []
      → documents_of scope ≡ some docs
      → let worker = search_chunks F embed_query failure store files in
        (found : List (SourceChunk Score)) × All
          (IsOwnChunk q.owner_id docs (reload_if_stale F files store).metadata)
          found
        × ((r : ChatQueryResponse Score)
            → (answer R str_of sha256_hex s now later worker generate q).0 ≡ ok r
            → r.sources ≡ found)
        × ((rest : List (Event Score)) × ((answer_stream R str_of sha256_hex s now later worker
                generate_stream q).0
              ≡ Event.sources found ∷ rest))
  unfolding answer answer_stream
  answer-own generate generate_stream docs known valid =
      let (found, there, own) = search_chunks-own scope docs known valid in
      (
        found,
        own,
        λ r h.
            answer_with-sources R str_of sha256_hex s now later generate q found r
              (rw (there, answer) at h),
        (
          (stream_with R str_of sha256_hex s now later generate_stream q found).0,
          rw (there, answer_stream) refl,
        ),
      )
