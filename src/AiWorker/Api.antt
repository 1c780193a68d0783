-- ===== src/AiWorker/Api.antt =====
-- ai-worker-service/app/api/v1/search.py and documents_internal.py with schemas.py: the two internal
-- routes, over the vector store. `embed_query` is the embedding model.
use ai_document_analysis.Prelude.{ℕ, Option, List, map, Text, codes}
use ai_document_analysis.Shared.Exceptions.{Exception, Result, ok, raise}
use ai_document_analysis.AiWorker.FaissStore.{search_store, delete_document}
use ai_document_analysis.AiWorker.FaissStore.Interface.{Faiss}
use ai_document_analysis.AiWorker.FaissStore.Types.{
  Files, Store, Hit, Outcome, returned, value_error, assertion_error,
}

pub record SearchRequest : Type 0 where
  pub query : Text
  pub top_k : ℕ
  pub owner_id : Text
  pub document_ids : Option (List Text)

pub record SearchResultItem (Score : Type 0) : Type 0 where
  pub document_id : Text
  pub chunk_index : ℕ
  pub text : Text
  pub score : Score

-- A result without the fields that the schema does not have.
abbrev pub item_of : {Score : Type 0} → Hit Score → SearchResultItem Score
item_of hit = record {
  document_id = hit.meta.document_id;
  chunk_index = hit.meta.chunk_index;
  text = hit.meta.text;
  score = hit.score;
}

-- An exception of the store is none of the service's own.
abbrev pub answered {ℓ} : {A : Type 0} {B : Type ℓ} → (A → B) → Outcome A → Result B
answered f (returned a) = ok (f a)
answered f value_error = raise (Exception.unhandled (codes "ValueError"))
answered f assertion_error = raise (Exception.unhandled (codes "AssertionError"))

module _ (F : Faiss) where
  open F use {Vector, Score, Index}

  unfoldable pub search_route :
      (Text → Vector)
      → SearchRequest
      → Store Index
      → Files Index
      → Result (List (SearchResultItem Score)) × Store Index
  search_route embed_query request s files =
      let (outcome, s') =
        search_store F (embed_query request.query) request.owner_id request.top_k
          request.document_ids s files in
      (answered (map item_of) outcome, s')

  unfoldable pub delete_route :
      ℕ → ℕ → Text → Text → Store Index → Files Index → Result ℕ × Store Index × Files Index
  delete_route t u document_id owner_id s files =
      let (outcome, s', files') = delete_document F t u document_id owner_id s files in
      (answered (λ deleted_chunks. deleted_chunks) outcome, s', files')
