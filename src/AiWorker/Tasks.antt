-- ===== src/AiWorker/Tasks.antt =====
-- ai-worker-service/app/tasks.py: `process_document`, on the row of its document, and
-- `reindex_pending_documents`. The embedding model, the text of an exception of the store, and
-- whether the broker and Redis can be reached, are arguments.
pub mod Processing
pub mod LifeCycle
pub mod Runs
pub mod Retries
pub mod Searchable
pub mod Keeps
pub mod Uploaded
pub mod Sample
mod Tests
use ai_document_analysis.Prelude.{
  ℕ, zero, suc, ◌+◌, if◌then◌else◌, Bool, true, false, ◌&&◌, ◌⊎◌, inl, inr, Option, none, some,
  List, [], ◌∷◌, ◌++◌, map, Text, codes, filter, length, ltb,
}
use ai_document_analysis.AiWorker.FaissStore.{add, delete_document}
use ai_document_analysis.AiWorker.FaissStore.Interface.{Faiss}
use ai_document_analysis.AiWorker.FaissStore.Types.{
  Files, Store, Outcome, returned, value_error, assertion_error,
}
use ai_document_analysis.Shared.Json.{Json, str, number, obj, Fields, end, field}
use ai_document_analysis.Shared.Json.Codec.{Codec}
use ai_document_analysis.Shared.Redis.Channels.{Publication, publish_document_status}
use ai_document_analysis.DocumentService.Documents.{
  DocumentStatus, pending, processing, processed, failed, chunks_path,
}

-- The columns that the tasks use.
pub record Row : Type 0 where
  pub id : Text
  pub owner_id : Text
  pub status : DocumentStatus
  pub error_message : Option Text
  pub chunk_count : Option ℕ
  pub updated_at : ℕ

-- What a run sees: the row of its document, the sidecar, the vector store with its files, the
-- tasks for TOPIC_DOCUMENT_PROCESSED, and what Redis was given to publish.
pub record Worker (Index : Type 0) : Type 0 where
  pub row : Option Row
  pub sidecar : Option (List Text)
  pub store : Store Index
  pub files : Files Index
  pub sent : List Text
  pub published : List Publication

-- What a run meets outside: the times at which `delete_document` and `add` save the two files, the
-- embedding model, and the text of the exception with which `send_task`, or the publication of the
-- end or of the failure, raises, if it does.
pub record Outside (Vector : Type 0) : Type 0 where
  pub t : ℕ
  pub u : ℕ
  pub t' : ℕ
  pub u' : ℕ
  pub embed_texts : List Text → Text ⊎ List Vector
  pub send_raises : Option Text
  pub publish_raises : Option Text
  pub publish_failed_raises : Option Text

-- A run returns, or ends in `self.retry`, or in an exception of the `except` block.
pub data TaskEnd : Type 0 where
  finished : TaskEnd
  retried : Text → TaskEnd
  crashed : Text → TaskEnd

-- `status in (PENDING, PROCESSING)`
abbrev pub is_open : DocumentStatus → Bool
is_open pending = true
is_open processing = true
is_open processed = false
is_open failed = false

abbrev pub is_retried : TaskEnd → Bool
is_retried finished = false
is_retried (retried m) = true
is_retried (crashed m) = false

-- REINDEX_STALE_AFTER, in milliseconds
abbrev pub reindex_stale_after : ℕ
reindex_stale_after = 1200000

-- `reindex_pending_documents`: the tasks that it sends at the time `now`
unfoldable pub reindex_pending_documents : ℕ → List Row → List Text
reindex_pending_documents now rows =
    map (λ r. r.id)
      (filter (λ r. is_open r.status && ltb (r.updated_at + reindex_stale_after) now) rows)

-- The payloads of the two statuses.
abbrev pub status_payload : Text → Text → Fields → Json
status_payload document_id status rest =
    obj (field (codes "document_id") (str document_id) (field (codes "status") (str status) rest))

abbrev pub processed_payload : Text → ℕ → Json
processed_payload document_id count =
    status_payload document_id (codes "processed") (field (codes "chunk_count") (number count) end)

abbrev pub failed_payload : Text → Text → Json
failed_payload document_id message =
    status_payload document_id (codes "failed") (field (codes "error_message") (str message) end)

module _ (C : Codec) (F : Faiss) (upload_dir : Text) (message_of : Outcome ℕ → Text) where
  open F use {Index, Vector}

  -- The `except` block; what the `try` block committed stays.
  unfoldable pub fail : Outside Vector → Text → Row → Worker Index → TaskEnd × Worker Index
  unfolding publish_document_status
  fail o message row w =
      let w' : Worker Index = record w {
        row = some (record row { status = failed; error_message = some message });
      } in
      let payload = failed_payload row.id message in
      elim (publish_document_status C o.publish_failed_raises row.owner_id payload w.published) [
        | inl e ↦ (crashed e, w')
        | inr ps ↦ (retried message, record w' { published = ps })
      ]

  -- `publish_document_status` at the end of the `try` block.
  unfoldable pub announce : Outside Vector → ℕ → Row → Worker Index → TaskEnd × Worker Index
  unfolding publish_document_status fail
  announce o count row w =
      let payload = processed_payload row.id count in
      elim (publish_document_status C o.publish_raises row.owner_id payload w.published) [
        | inl e ↦ fail o e row w
        | inr ps ↦ (finished, record w { published = ps })
      ]

  -- The end of the `try` block, from the second commit on.
  unfoldable pub finish : Outside Vector → List Text → Row → Worker Index → TaskEnd × Worker Index
  unfolding fail announce
  finish o chunks row w =
      let row' : Row = record row { status = processed; chunk_count = some (length chunks) } in
      let w' : Worker Index = record w { row = some row' } in
      elim o.send_raises [
        | some e ↦ fail o e row' w'
        | none ↦ announce o (length chunks) row' (record w' { sent = w.sent ++ row.id ∷ [] })
      ]

  -- What follows a call of the store.
  unfoldable pub after_store :
      Outside Vector
      → Outcome ℕ
      → Row
      → Worker Index
      → (Worker Index → TaskEnd × Worker Index)
      → TaskEnd × Worker Index
  unfolding fail
  after_store o (returned n) row w rest = rest w
  after_store o value_error row w rest = fail o (message_of value_error) row w
  after_store o assertion_error row w rest = fail o (message_of assertion_error) row w

  -- `delete_document`, then `add`
  unfoldable pub index_document :
      Outside Vector → List Text → List Vector → Row → Worker Index → TaskEnd × Worker Index
  unfolding after_store finish
  index_document o chunks vectors row w =
      let (deleted, s, f) = delete_document F o.t o.u row.id row.owner_id w.store w.files in
      after_store o deleted row (record w { store = s; files = f })
        (λ w'.
          let (added, s', f') =
            add F o.t' o.u' row.id chunks vectors row.owner_id w'.store w'.files in
          after_store o added row (record w' { store = s'; files = f' }) (finish o chunks row))

  -- The `try` block once the row is there.
  unfoldable pub process_row :
      Outside Vector → Option (List Text) → Row → Worker Index → TaskEnd × Worker Index
  unfolding fail index_document
  process_row o none row w =
      fail o (codes "Missing chunk sidecar file: " ++ chunks_path upload_dir row.id) row w
  process_row o (some chunks) row w = elim (o.embed_texts chunks) [
    | inl message ↦ fail o message row w
    | inr vectors ↦ index_document o chunks vectors row w
  ]

  unfoldable pub process_document : Outside Vector → Worker Index → TaskEnd × Worker Index
  unfolding process_row
  process_document o w = elim w.row [
    | none ↦ (finished, w)
    | some row ↦
        let started : Row = record row { status = processing } in
        process_row o w.sidecar started (record w { row = some started })
  ]

  -- Celery's `max_retries`: after a `self.retry` the task runs again, unless it was run again that
  -- often. `outside` is what each run meets; the ends of the runs are listed.
  abbrev pub max_retries : ℕ
  max_retries = 3

  unfoldable pub deliver : ℕ → (ℕ → Outside Vector) → Worker Index → List TaskEnd × Worker Index
  unfolding process_document
  deliver zero outside w = let (e, w') = process_document (outside 0) w in (e ∷ [], w')
  deliver (suc left) outside w =
      let (e, w') = process_document (outside 0) w in
      let (ends, w'') = deliver left (λ i. outside (suc i)) w' in
      if is_retried e then (e ∷ ends, w'') else (e ∷ [], w')
