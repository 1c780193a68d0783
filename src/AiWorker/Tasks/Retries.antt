-- ===== src/AiWorker/Tasks/Retries.antt =====
-- The retries of one task: Celery runs it again after `self.retry`, at most `max_retries` times.
use ai_document_analysis.Prelude.{
  ℕ, zero, suc, ◌≤◌, ◌<◌, ◌≡◌, ◌≢◌, refl, sym, ap, ◌∙◌, subst, none, some, List, [], ◌∷◌, Text,
  length, inl, inr, ◌⊎◌, arith,
}
use ai_document_analysis.AiWorker.FaissStore.Interface.{Faiss}
use ai_document_analysis.AiWorker.FaissStore.Types.{Outcome}
use ai_document_analysis.AiWorker.FaissStore.Processes.{IsSound}
use ai_document_analysis.AiWorker.FaissStore.Returned.{current_texts}
use ai_document_analysis.Shared.Json.Codec.{Codec}
use ai_document_analysis.DocumentService.Documents.{processed}
use ai_document_analysis.AiWorker.Tasks.{
  Row, Worker, Outside, TaskEnd, finished, retried, crashed, deliver,
}
use ai_document_analysis.AiWorker.Tasks.Processing.{run, process_document-processed}
use ai_document_analysis.AiWorker.Tasks.LifeCycle.{run-IsRight}

module _ (C : Codec) (F : Faiss) (upload_dir : Text) (message_of : Outcome ℕ → Text) where
  open F use {Index, Vector}

  -- A run that meets nothing that fails.
  pub record IsGood (o : Outside Vector) (chunks : List Text) (vectors : List Vector) : Type 0 where
    pub embedded : o.embed_texts chunks ≡ inr vectors
    pub paired : length vectors ≡ length chunks
    pub sends : o.send_raises ≡ none
    pub publishes : o.publish_raises ≡ none

  -- The row of a document is processed, and counts the chunks; they are those in the store.
  pub record IsDone (id owner : Text) (chunks : List Text) (w : Worker Index) : Type 0 where
    pub row : Row
    pub there : w.row ≡ some row
    pub own : (row.id ≡ id) × (row.owner_id ≡ owner)
    pub status : row.status ≡ processed
    pub counted : row.chunk_count ≡ some (length chunks)
    pub exact : current_texts F id owner w.store w.files ≡ chunks
    pub sound : IsSound F w.store w.files

  -- A document that can be processed.
  pub record IsWaiting (id owner : Text) (chunks : List Text) (w : Worker Index) : Type 0 where
    pub row : Row
    pub there : w.row ≡ some row
    pub own : (row.id ≡ id) × (row.owner_id ≡ owner)
    pub stored : w.sidecar ≡ some chunks
    pub sound : IsSound F w.store w.files

  deliver_stops :
      (left : ℕ) (outside : ℕ → Outside Vector) (w : Worker Index)
      → (run C F upload_dir message_of (outside 0) w).0 ≡ finished
      → deliver C F upload_dir message_of left outside w
        ≡ (finished ∷ [], (run C F upload_dir message_of (outside 0) w).1)
  unfolding deliver
  deliver_stops zero outside w e = rw e refl
  deliver_stops (suc left) outside w e = rw e refl

  deliver_goes_on :
      (left : ℕ) (outside : ℕ → Outside Vector) (w : Worker Index) (message : Text)
      → (run C F upload_dir message_of (outside 0) w).0 ≡ retried message
      → let rest =
          deliver C F upload_dir message_of left
            (λ i. outside (suc i))
            (run C F upload_dir message_of (outside 0) w).1 in
        deliver C F upload_dir message_of (suc left) outside w ≡ (retried message ∷ rest.0, rest.1)
  unfolding deliver
  deliver_goes_on left outside w message e = rw e refl

  TaskEnd-cases :
      (e : TaskEnd)
      → (e ≡ finished)
        ⊎ ((message : Text) × (e ≡ retried message))
        ⊎ ((message : Text) × (e ≡ crashed message))
  TaskEnd-cases finished = inl refl
  TaskEnd-cases (retried message) = inr (inl (message, refl))
  TaskEnd-cases (crashed message) = inr (inr (message, refl))

  module _ (id owner : Text) (chunks : List Text) where
    -- What holds of the row that a run found holds of the document.
    of_document :
        (P : Text → Text → Type 0) (row : Row)
        → (row.id ≡ id) × (row.owner_id ≡ owner)
        → P row.id row.owner_id
        → P id owner
    of_document P row own p = subst (P id) own.1 (subst (λ i. P i row.owner_id) own.0 p)

    finished-IsDone :
        (o : Outside Vector) (w : Worker Index)
        → IsWaiting id owner chunks w
        → let (end, w') = run C F upload_dir message_of o w in
          end ≡ finished → IsDone id owner chunks w'
    finished-IsDone o w h e =
        let r = run-IsRight C F upload_dir message_of o w h.row h.there h.sound in
        let w' : Worker Index = (run C F upload_dir message_of o w).1 in
        let exact : current_texts F h.row.id h.row.owner_id w'.store w'.files ≡ chunks =
          cc ((r.ended e).1, h.stored) in
        of_document (λ i o'. IsDone i o' chunks w') h.row h.own
          (record {
            row = r.accurate.row;
            there = r.accurate.there;
            own = r.accurate.own;
            status = (r.ended e).0;
            counted = r.accurate.counted (r.ended e).0 ∙ ap (λ ts. some (length ts)) exact;
            exact = exact;
            sound = r.accurate.sound;
          })

    retried-IsWaiting :
        (o : Outside Vector) (w : Worker Index)
        → IsWaiting id owner chunks w
        → IsWaiting id owner chunks (run C F upload_dir message_of o w).1
    retried-IsWaiting o w h =
        let r = run-IsRight C F upload_dir message_of o w h.row h.there h.sound in
        of_document (λ i o'. IsWaiting i o' chunks (run C F upload_dir message_of o w).1) h.row
          h.own
          (record {
            row = r.accurate.row;
            there = r.accurate.there;
            own = r.accurate.own;
            stored = r.same_sidecar ∙ h.stored;
            sound = r.accurate.sound;
          })

    good-finished :
        (o : Outside Vector) (w : Worker Index) (vectors : List Vector)
        → owner ≢ []
        → IsGood o chunks vectors
        → IsWaiting id owner chunks w
        → (run C F upload_dir message_of o w).0 ≡ finished
    good-finished o w vectors owned good h =
        let (w', ran, _, _, _, _) =
          process_document-processed C F upload_dir message_of o w h.row chunks vectors
            (record {
              there = h.there;
              stored = h.stored;
              embedded = good.embedded;
              owned = λ e. owned (sym h.own.1 ∙ e);
              paired = good.paired;
              sound = h.sound;
            })
            good.sends good.publishes in
        ap (λ r. r.0) ran

    stopped-IsDone :
        (k left : ℕ) (outside : ℕ → Outside Vector) (w : Worker Index)
        → IsWaiting id owner chunks w
        → (run C F upload_dir message_of (outside 0) w).0 ≡ finished
        → let (ends, w') = deliver C F upload_dir message_of left outside w in
          (length ends ≤ suc k) × IsDone id owner chunks w'
    stopped-IsDone k left outside w h e =
        rw (deliver_stops left outside w e) (omega arith, finished-IsDone (outside 0) w h e)

    -- Where Redis can be reached for the statuses of the failures, and the run after `k` retries
    -- meets nothing that fails, the task ends after at most `k + 1` runs, if so many retries are
    -- allowed: the row is processed and counts the chunks of the sidecar, which are exactly the
    -- document's chunks in the store.
    pub deliver-IsDone :
        (k left : ℕ) (outside : ℕ → Outside Vector) (w : Worker Index) (vectors : List Vector)
        → k ≤ left
        → owner ≢ []
        → ((j : ℕ) → j < k → (outside j).publish_failed_raises ≡ none)
        → IsGood (outside k) chunks vectors
        → IsWaiting id owner chunks w
        → let (ends, w') = deliver C F upload_dir message_of left outside w in
          (length ends ≤ suc k) × IsDone id owner chunks w'
    deliver-IsDone zero left outside w vectors le owned reached good h =
        stopped-IsDone zero left outside w h (good-finished (outside 0) w vectors owned good h)
    deliver-IsDone (suc k) zero outside w vectors le owned reached good h = absurd (omega arith)
    deliver-IsDone (suc k) (suc left) outside w vectors le owned reached good h =
        elim (TaskEnd-cases (run C F upload_dir message_of (outside 0) w).0) [
          | inl e ↦ stopped-IsDone (suc k) (suc left) outside w h e
          | inr (inl (message, e)) ↦
              let (few, done) =
                deliver-IsDone k left (λ i. outside (suc i))
                  (run C F upload_dir message_of (outside 0) w).1 vectors (omega arith) owned
                  (λ j lt. reached (suc j) (omega arith)) good
                  (retried-IsWaiting (outside 0) w h) in
              rw (deliver_goes_on left outside w message e) (omega (arith, few), done)
          | inr (inr (message, e)) ↦
              let r = run-IsRight C F upload_dir message_of (outside 0) w h.row h.there h.sound in
              absurd (r.no_crash (reached 0 (omega arith)) message e)
        ]
