-- ===== src/AiWorker/Tasks/LifeCycle.antt =====
-- The life of one document's row, while `process_document` runs for it any number of times.
use ai_document_analysis.Prelude.{
  ℕ, ◌≡◌, ◌≢◌, refl, sym, ap, ◌∙◌, subst, Option, none, some, List, [], ◌∷◌, ◌++◌, ◌⊎◌, Text,
  length, inl, inr,
}
use ai_document_analysis.AiWorker.FaissStore.{add, delete_document}
use ai_document_analysis.AiWorker.FaissStore.Interface.{Faiss}
use ai_document_analysis.AiWorker.FaissStore.Types.{Outcome, returned, value_error, assertion_error}
use ai_document_analysis.AiWorker.FaissStore.Processes.{IsSound, add-Leaves, delete_document-Leaves}
use ai_document_analysis.AiWorker.FaissStore.Returned.{current_texts, reindex-exact}
use ai_document_analysis.Shared.Json.Codec.{Codec}
use ai_document_analysis.Shared.Redis.Channels.{publish_document_status}
use ai_document_analysis.DocumentService.Documents.{processing, processed}
use ai_document_analysis.AiWorker.Tasks.{
  Row, Worker, Outside, TaskEnd, finished, crashed, fail, announce, finish, after_store,
  index_document, process_row, process_document,
}
use ai_document_analysis.AiWorker.Tasks.Processing.{process_document_lem}

module _ (C : Codec) (F : Faiss) (upload_dir : Text) (message_of : Outcome ℕ → Text) where
  open F use {Index, Vector}

  -- The row is that of the document, and counts its chunks in the store once it is processed.
  pub record IsAccurate (id owner : Text) (w : Worker Index) : Type 0 where
    pub sound : IsSound F w.store w.files
    pub row : Row
    pub there : w.row ≡ some row
    pub own : (row.id ≡ id) × (row.owner_id ≡ owner)
    pub counted :
        row.status ≡ processed
        → row.chunk_count ≡ some (length (current_texts F id owner w.store w.files))

  -- How a run for a row ends, by the sidecar that it found: a run that returns has indexed the
  -- chunks of the sidecar, and none ends in an exception unless Redis cannot be reached.
  pub record IsRight (again : Option Text) (row : Row) (sidecar : Option (List Text))
      (r : TaskEnd × Worker Index) : Type 0 where
    pub accurate : IsAccurate row.id row.owner_id r.1
    pub ended :
        r.0 ≡ finished
        → (accurate.row.status ≡ processed)
          × (sidecar ≡ some (current_texts F row.id row.owner_id r.1.store r.1.files))
    pub same_sidecar : r.1.sidecar ≡ sidecar
    pub no_crash : again ≡ none → (e : Text) → r.0 ≢ crashed e

  module _ (o : Outside Vector) (row : Row) where
    fail_if-IsRight :
        (message : Text) (w : Worker Index) (again : Option Text)
        → o.publish_failed_raises ≡ again
        → IsSound F w.store w.files
        → IsRight o.publish_failed_raises row w.sidecar
            (fail C F upload_dir message_of o message row w)
    unfolding fail publish_document_status
    fail_if-IsRight message w none e h = rw e (record {
      accurate = record {
        sound = h;
        row = _;
        there = refl;
        own = (refl, refl);
        counted = λ status. cc status;
      };
      ended = λ end. cc end;
      same_sidecar = refl;
      no_crash = λ reached x end. cc end;
    })
    fail_if-IsRight message w (some x) e h = rw e (record {
      accurate = record {
        sound = h;
        row = _;
        there = refl;
        own = (refl, refl);
        counted = λ status. cc status;
      };
      ended = λ end. cc end;
      same_sidecar = refl;
      no_crash = λ reached y end. cc reached;
    })

    fail-IsRight :
        (message : Text) (w : Worker Index)
        → IsSound F w.store w.files
        → IsRight o.publish_failed_raises row w.sidecar
            (fail C F upload_dir message_of o message row w)
    fail-IsRight message w h = fail_if-IsRight message w o.publish_failed_raises refl h

    -- The row is processed, and its count is true, whether Redis can be reached or not.
    announce-IsRight :
        (count : ℕ) (w : Worker Index) (published : Option Text)
        → o.publish_raises ≡ published
        → w.row ≡ some row
        → IsSound F w.store w.files
        → row.status ≡ processed
        → (let texts = current_texts F row.id row.owner_id w.store w.files in
            (row.chunk_count ≡ some (length texts)) × (w.sidecar ≡ some texts))
        → IsRight o.publish_failed_raises row w.sidecar
            (announce C F upload_dir message_of o count row w)
    unfolding announce publish_document_status
    announce-IsRight count w none e there h status (counted, stored) = rw e (record {
      accurate = record {
        sound = h;
        row = row;
        there = there;
        own = (refl, refl);
        counted = λ s. counted;
      };
      ended = λ end. (status, stored);
      same_sidecar = refl;
      no_crash = λ reached x end. cc end;
    })
    announce-IsRight count w (some x) e there h status counted = rw e (fail-IsRight x w h)

  module _ (o : Outside Vector) (row : Row) where
    abbrev counting : List Text → Row
    counting chunks = record row { status = processed; chunk_count = some (length chunks) }

    -- The row that was found, and the one that the run leaves, are of the same document.
    counting-IsRight :
        (chunks : List Text) (sidecar : Option (List Text)) (r : TaskEnd × Worker Index)
        → IsRight o.publish_failed_raises (counting chunks) sidecar r
        → IsRight o.publish_failed_raises row sidecar r
    counting-IsRight chunks sidecar r h = record {
      accurate = record {
        sound = h.accurate.sound;
        row = h.accurate.row;
        there = h.accurate.there;
        own = h.accurate.own;
        counted = h.accurate.counted;
      };
      ended = h.ended;
      same_sidecar = h.same_sidecar;
      no_crash = h.no_crash;
    }

    finish-IsRight :
        (chunks : List Text) (w : Worker Index) (sends : Option Text)
        → o.send_raises ≡ sends
        → IsSound F w.store w.files
        → w.sidecar ≡ some chunks
        → current_texts F row.id row.owner_id w.store w.files ≡ chunks
        → IsRight o.publish_failed_raises row w.sidecar
            (finish C F upload_dir message_of o chunks row w)
    unfolding finish
    finish-IsRight chunks w none e h stored exact = rw e (
        counting-IsRight chunks w.sidecar _ (
          announce-IsRight o (counting chunks) (length chunks)
            (record w { row = some (counting chunks); sent = w.sent ++ row.id ∷ [] })
            o.publish_raises refl refl h refl
            (ap (λ ts. some (length ts)) (sym exact), stored ∙ ap some (sym exact))))
    finish-IsRight chunks w (some x) e h stored exact = rw e (
        counting-IsRight chunks w.sidecar _
          (fail-IsRight o (counting chunks) x (record w { row = some (counting chunks) }) h))

    -- A call of the store that returned is followed by the rest; one that raised by the failure.
    after_store-IsRight :
        (r : Outcome ℕ) (w : Worker Index) (rest : Worker Index → TaskEnd × Worker Index)
        → IsSound F w.store w.files
        → ((n : ℕ) → r ≡ returned n → IsRight o.publish_failed_raises row w.sidecar (rest w))
        → IsRight o.publish_failed_raises row w.sidecar
            (after_store C F upload_dir message_of o r row w rest)
    unfolding after_store
    after_store-IsRight (returned n) w rest h next = next n refl
    after_store-IsRight value_error w rest h next = fail-IsRight o row _ w h
    after_store-IsRight assertion_error w rest h next = fail-IsRight o row _ w h

    index_document-IsRight :
        (chunks : List Text) (vectors : List Vector) (w : Worker Index)
        → w.sidecar ≡ some chunks
        → IsSound F w.store w.files
        → IsRight o.publish_failed_raises row w.sidecar
            (index_document C F upload_dir message_of o chunks vectors row w)
    unfolding index_document
    index_document-IsRight chunks vectors w stored h =
        let deleted = delete_document F o.t o.u row.id row.owner_id w.store w.files in
        let kept = delete_document-Leaves F o.t o.u row.id row.owner_id w.store w.files h in
        let (added, store, files) =
          add F o.t' o.u' row.id chunks vectors row.owner_id deleted.1 deleted.2 in
        let left =
          add-Leaves F o.t' o.u' row.id chunks vectors row.owner_id deleted.1 deleted.2
            kept.sound in
        after_store-IsRight _ _ _ kept.sound λ n gone.
          after_store-IsRight _ _ _ left.sound λ m come.
            finish-IsRight chunks (record w { store = store; files = files }) o.send_raises refl
              left.sound stored
              (reindex-exact F o.t o.u o.t' o.u' row.id chunks vectors row.owner_id w.store w.files
                n m h gone come)

    embedded-IsRight :
        (chunks : List Text) (w : Worker Index) (v : Text ⊎ List Vector)
        → o.embed_texts chunks ≡ v
        → w.sidecar ≡ some chunks
        → IsSound F w.store w.files
        → IsRight o.publish_failed_raises row w.sidecar
            (process_row C F upload_dir message_of o (some chunks) row w)
    unfolding process_row
    embedded-IsRight chunks w (inl message) e stored h =
        rw (e, process_row) (fail-IsRight o row message w h)
    embedded-IsRight chunks w (inr vectors) e stored h =
        rw (e, process_row) (index_document-IsRight chunks vectors w stored h)

    process_row-IsRight :
        (sidecar : Option (List Text)) (w : Worker Index)
        → w.sidecar ≡ sidecar
        → IsSound F w.store w.files
        → IsRight o.publish_failed_raises row w.sidecar
            (process_row C F upload_dir message_of o sidecar row w)
    unfolding process_row
    process_row-IsRight none w stored h = fail-IsRight o row _ w h
    process_row-IsRight (some chunks) w stored h =
        embedded-IsRight chunks w (o.embed_texts chunks) refl stored h

  -- A run keeps the row the document's, and what it counts true.
  pub run-IsRight :
      (o : Outside Vector) (w : Worker Index) (row : Row)
      → w.row ≡ some row
      → IsSound F w.store w.files
      → IsRight o.publish_failed_raises row w.sidecar
          (process_document C F upload_dir message_of o w)
  run-IsRight o w row there h =
      let started : Row = record row { status = processing } in
      let r = process_row-IsRight o started w.sidecar (record w { row = some started }) refl h in
      subst (IsRight o.publish_failed_raises row w.sidecar)
        (sym (process_document_lem C F upload_dir message_of o w row there))
        (record {
          accurate = record {
            sound = r.accurate.sound;
            row = r.accurate.row;
            there = r.accurate.there;
            own = r.accurate.own;
            counted = r.accurate.counted;
          };
          ended = r.ended;
          same_sidecar = r.same_sidecar;
          no_crash = r.no_crash;
        })
