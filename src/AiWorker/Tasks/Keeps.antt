-- ===== src/AiWorker/Tasks/Keeps.antt =====
-- What both calls of the store keep, every delivery of a task keeps.
use ai_document_analysis.Prelude.{
  ℕ, zero, suc, ◌≡◌, refl, inl, inr, ◌⊎◌, Option, none, some, List, [], ◌∷◌, ◌++◌, length, Text,
  Option-cases, Bool-cases,
}
use ai_document_analysis.AiWorker.FaissStore.{add, delete_document}
use ai_document_analysis.AiWorker.FaissStore.Interface.{Faiss}
use ai_document_analysis.AiWorker.FaissStore.Types.{
  Files, Store, Outcome, returned, value_error, assertion_error,
}
use ai_document_analysis.Shared.Json.Codec.{Codec}
use ai_document_analysis.Shared.Redis.Channels.{publish_document_status}
use ai_document_analysis.DocumentService.Documents.{processing, processed}
use ai_document_analysis.AiWorker.Tasks.{
  Row, Worker, Outside, TaskEnd, is_retried, fail, announce, finish, after_store, index_document,
  process_row, process_document, deliver,
}

module _ (C : Codec) (F : Faiss) (upload_dir : Text) (message_of : Outcome ℕ → Text) where
  open F use {Index, Vector}

  module _ (P : Store Index → Files Index → Type 0)
      (deletes : (t u : ℕ) (id owner : Text) (s : Store Index) (files : Files Index)
        → P s files
        → let r = delete_document F t u id owner s files in P r.1 r.2)
      (adds : (t u : ℕ) (id : Text) (chunks : List Text) (vectors : List Vector) (owner : Text)
          (s : Store Index) (files : Files Index)
        → P s files
        → let r = add F t u id chunks vectors owner s files in P r.1 r.2) where
    record Keeps (r : TaskEnd × Worker Index) : Type 0 where
      at : P r.1.store r.1.files

    fail-Keeps :
        (o : Outside Vector) (message : Text) (row : Row) (w : Worker Index) (raises : Option Text)
        → o.publish_failed_raises ≡ raises
        → P w.store w.files
        → Keeps (fail C F upload_dir message_of o message row w)
    unfolding fail publish_document_status
    fail-Keeps o message row w none e h = rw e (record { at = h })
    fail-Keeps o message row w (some x) e h = rw e (record { at = h })

    announce-Keeps :
        (o : Outside Vector) (count : ℕ) (row : Row) (w : Worker Index) (raises : Option Text)
        → o.publish_raises ≡ raises
        → P w.store w.files
        → Keeps (announce C F upload_dir message_of o count row w)
    unfolding announce publish_document_status
    announce-Keeps o count row w none e h = rw e (record { at = h })
    announce-Keeps o count row w (some x) e h = rw e (fail-Keeps o x row w _ refl h)

    abbrev counting : Row → List Text → Row
    counting row chunks = record row { status = processed; chunk_count = some (length chunks) }

    finish-Keeps :
        (o : Outside Vector) (chunks : List Text) (row : Row) (w : Worker Index)
        (raises : Option Text)
        → o.send_raises ≡ raises
        → P w.store w.files
        → Keeps (finish C F upload_dir message_of o chunks row w)
    unfolding finish
    finish-Keeps o chunks row w none e h = rw e (
        announce-Keeps o (length chunks) (counting row chunks)
          (record w { row = some (counting row chunks); sent = w.sent ++ row.id ∷ [] }) _ refl h)
    finish-Keeps o chunks row w (some x) e h = rw e (
        fail-Keeps o x (counting row chunks) (record w { row = some (counting row chunks) }) _ refl
          h)

    after_store-Keeps :
        (o : Outside Vector) (r : Outcome ℕ) (row : Row) (w : Worker Index)
        (rest : Worker Index → TaskEnd × Worker Index)
        → P w.store w.files
        → Keeps (rest w)
        → Keeps (after_store C F upload_dir message_of o r row w rest)
    unfolding after_store
    after_store-Keeps o (returned n) row w rest h next = next
    after_store-Keeps o value_error row w rest h next = fail-Keeps o _ row w _ refl h
    after_store-Keeps o assertion_error row w rest h next = fail-Keeps o _ row w _ refl h

    index_document-Keeps :
        (o : Outside Vector) (chunks : List Text) (vectors : List Vector) (row : Row)
        (w : Worker Index)
        → P w.store w.files
        → Keeps (index_document C F upload_dir message_of o chunks vectors row w)
    unfolding index_document
    index_document-Keeps o chunks vectors row w h =
        let (deleted, s, f) = delete_document F o.t o.u row.id row.owner_id w.store w.files in
        let (added, s', f') = add F o.t' o.u' row.id chunks vectors row.owner_id s f in
        let gone = deletes o.t o.u row.id row.owner_id w.store w.files h in
        let come = adds o.t' o.u' row.id chunks vectors row.owner_id s f gone in
        let w' : Worker Index = record w { store = s'; files = f' } in
        let rest : Worker Index → TaskEnd × Worker Index =
          finish C F upload_dir message_of o chunks row in
        after_store-Keeps o deleted row (record w { store = s; files = f })
          (λ v.
            let r = add F o.t' o.u' row.id chunks vectors row.owner_id v.store v.files in
            after_store C F upload_dir message_of o r.0 row (record v { store = r.1; files = r.2 })
              rest)
          gone
          (after_store-Keeps o added row w' rest come (finish-Keeps o chunks row w' _ refl come))

    embedded-Keeps :
        (o : Outside Vector) (chunks : List Text) (v : Text ⊎ List Vector) (row : Row)
        (w : Worker Index)
        → o.embed_texts chunks ≡ v
        → P w.store w.files
        → Keeps (process_row C F upload_dir message_of o (some chunks) row w)
    unfolding process_row
    embedded-Keeps o chunks (inl message) row w e h =
        rw (e, process_row) (fail-Keeps o message row w _ refl h)
    embedded-Keeps o chunks (inr vectors) row w e h =
        rw (e, process_row) (index_document-Keeps o chunks vectors row w h)

    process_row-Keeps :
        (o : Outside Vector) (sidecar : Option (List Text)) (row : Row) (w : Worker Index)
        → P w.store w.files
        → Keeps (process_row C F upload_dir message_of o sidecar row w)
    unfolding process_row
    process_row-Keeps o none row w h = fail-Keeps o _ row w _ refl h
    process_row-Keeps o (some chunks) row w h = embedded-Keeps o chunks _ row w refl h

    process_document-Keeps :
        (o : Outside Vector) (w : Worker Index)
        → P w.store w.files
        → Keeps (process_document C F upload_dir message_of o w)
    unfolding process_document
    process_document-Keeps o w h = elim (Option-cases w.row) [
      | inl none_there ↦ rw (none_there, process_document) (record { at = h })
      | inr (row, there) ↦
          rw (there, process_document)
            (process_row-Keeps o w.sidecar (record row { status = processing }) _ h)
    ]

    -- What a call of `delete_document` and a call of `add` keep, the deliveries of a task keep.
    pub deliver-Keeps :
        (left : ℕ) (outside : ℕ → Outside Vector) (w : Worker Index)
        → P w.store w.files
        → let w' = (deliver C F upload_dir message_of left outside w).1 in P w'.store w'.files
    unfolding deliver
    deliver-Keeps zero outside w h = (process_document-Keeps (outside 0) w h).at
    deliver-Keeps (suc left) outside w h =
        let first = (process_document-Keeps (outside 0) w h).at in
        elim (Bool-cases
          (is_retried (process_document C F upload_dir message_of (outside 0) w).0)) [
            | inl again ↦ rw again (deliver-Keeps left (λ i. outside (suc i)) _ first)
            | inr done ↦ rw done first
          ]
