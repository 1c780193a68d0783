-- ===== src/AiWorker/Tasks/Runs.antt =====
-- Any number of runs for one document, one after the other. Runs that overlap are not covered.
use ai_document_analysis.Prelude.{
  ℕ, ◌≡◌, refl, sym, ap, ◌∙◌, subst, Option, none, some, List, Text, length,
}
use ai_document_analysis.AiWorker.FaissStore.Interface.{Faiss}
use ai_document_analysis.AiWorker.FaissStore.Types.{Files, Store, Outcome}
use ai_document_analysis.AiWorker.FaissStore.Processes.{IsSound}
use ai_document_analysis.AiWorker.FaissStore.Returned.{current_texts}
use ai_document_analysis.Shared.Json.Codec.{Codec}
use ai_document_analysis.DocumentService.Documents.{pending, processed}
use ai_document_analysis.AiWorker.Tasks.{Row, Worker, Outside}
use ai_document_analysis.AiWorker.Tasks.Processing.{run}
use ai_document_analysis.AiWorker.Tasks.LifeCycle.{IsAccurate, run-IsRight}

module _ (C : Codec) (F : Faiss) (upload_dir : Text) (message_of : Outcome ℕ → Text) where
  open F use {Index, Vector}

  module _ (id owner : Text) where
    -- What happens to a document, one thing after the other: a whole run of the task, `admin_reprocess`, a change of its sidecar,
    -- or calls of the store elsewhere that leave this document's chunks as they are.
    pub data Step (w : Worker Index) (w' : Worker Index) : Type 0 where
      runs : (o : Outside Vector) → w' ≡ (run C F upload_dir message_of o w).1 → Step w w'
      reprocesses :
          (row : Row)
          → w.row ≡ some row
          → w' ≡ record w { row = some (record row { status = pending; error_message = none }) }
          → Step w w'
      sidecars : (sidecar : Option (List Text)) → w' ≡ record w { sidecar = sidecar } → Step w w'
      elsewhere :
          (store : Store Index) (files : Files Index)
          → IsSound F store files
          → current_texts F id owner store files ≡ current_texts F id owner w.store w.files
          → w' ≡ record w { store = store; files = files }
          → Step w w'

    -- Every document begins with a pending row, as `upload` adds it.
    pub data Reach : Worker Index → Type 0 where
      uploaded :
          (w : Worker Index) (row : Row)
          → w.row ≡ some row
          → row.status ≡ pending
          → row.id ≡ id
          → row.owner_id ≡ owner
          → IsSound F w.store w.files
          → Reach w
      next : {w w' : Worker Index} → Reach w → Step w w' → Reach w'

    run-IsAccurate :
        (o : Outside Vector) (w : Worker Index)
        → IsAccurate C F upload_dir message_of id owner w
        → IsAccurate C F upload_dir message_of id owner (run C F upload_dir message_of o w).1
    run-IsAccurate o w h =
        let r = (run-IsRight C F upload_dir message_of o w h.row h.there h.sound).accurate in
        let w' : Worker Index = (run C F upload_dir message_of o w).1 in
        subst (λ o'. IsAccurate C F upload_dir message_of id o' w') h.own.1
          (subst (λ i. IsAccurate C F upload_dir message_of i h.row.owner_id w') h.own.0 r)

    Step-IsAccurate :
        {w w' : Worker Index}
        → Step w w'
        → IsAccurate C F upload_dir message_of id owner w
        → IsAccurate C F upload_dir message_of id owner w'
    Step-IsAccurate {w} (runs o e) h =
        subst (IsAccurate C F upload_dir message_of id owner) (sym e) (run-IsAccurate o w h)
    Step-IsAccurate {w} (reprocesses row there e) h =
        let same : row ≡ h.row = cc (there, h.there) in
        subst (IsAccurate C F upload_dir message_of id owner) (sym e) (record {
          sound = h.sound;
          row = record row { status = pending; error_message = none };
          there = refl;
          own = rw same h.own;
          counted = λ status. cc status;
        })
    Step-IsAccurate {w} (sidecars sidecar e) h =
        subst (IsAccurate C F upload_dir message_of id owner) (sym e) (record {
          sound = h.sound;
          row = h.row;
          there = h.there;
          own = h.own;
          counted = h.counted;
        })
    Step-IsAccurate {w} (elsewhere store files sound same e) h =
        subst (IsAccurate C F upload_dir message_of id owner) (sym e) (record {
          sound = sound;
          row = h.row;
          there = h.there;
          own = h.own;
          counted = λ status. h.counted status ∙ ap (λ ts. some (length ts)) (sym same);
        })

    Reach-IsAccurate :
        {w : Worker Index} → Reach w → IsAccurate C F upload_dir message_of id owner w
    Reach-IsAccurate (uploaded w row there status same_id same_owner sound) = record {
      sound = sound;
      row = row;
      there = there;
      own = (same_id, same_owner);
      counted = λ done. cc (status, done);
    }
    Reach-IsAccurate (next r step) = Step-IsAccurate step (Reach-IsAccurate r)

    -- From a pending row on, after any sequence of runs of the task, however each of them ends,
    -- requeueings, changes of the sidecar, and calls of the store that leave the chunks of this
    -- document as they are, where none of these overlaps with another and the store is in step with
    -- its files at the start: a row that is processed counts exactly the document's chunks that a process finds when
    -- it reads the files again, and the worker's store is in step with its files.
    pub Reach-counted :
        (w : Worker Index) (row : Row)
        → Reach w
        → w.row ≡ some row
        → IsSound F w.store w.files
          × (row.status ≡ processed
              → row.chunk_count ≡ some (length (current_texts F id owner w.store w.files)))
    Reach-counted w row r there =
        let h = Reach-IsAccurate r in
        let same : row ≡ h.row = cc (there, h.there) in
        (h.sound, λ status. rw same (h.counted (rw same at status)))
