-- ===== src/DocumentService/Documents/Access.antt =====
-- Reading, deleting and requeueing documents: who sees which row, and what a call leaves.
use ai_document_analysis.Prelude.{
  ℕ, ◌≡◌, refl, ap, ◌∙◌, inl, inr, Bool, true, false, not, none, some, List, [], ◌∷◌, ◌++◌, map,
  Text, ◌==◌, text-Eq, text_eq_iff, filter, ◌⊎◌, subst, sym, Option-cases, Bool-cases, arith,
  if◌then◌else◌,
}
use ai_document_analysis.Prelude.Dict.{lookup, erase, lookup-erase}
use ai_document_analysis.Shared.Exceptions.{Exception, Result, ok, raise, ◌>>=◌, Result-cases}
use ai_document_analysis.DocumentService.Documents.{
  pending, Document, World, Settings, chunks_path, update, one_document, get_by_id, is_listed,
  not_found, visible, get, exists_file, requeue, admin_reprocess, remove_document, delete,
}
use ai_document_analysis.DocumentService.Documents.Sending.{send_task-sent, send_task-unsent}

abbrev pub rows_of : Text → List Document → List Document
rows_of id rows = filter (λ r. r.id == id) rows

one_visible :
    (test : Document → Bool) (ds : List Document) (d : Document)
    → (one_document ds >>= visible test) ≡ ok d
    → (ds ≡ d ∷ []) × (test d ≡ true)
unfolding one_document
one_visible test [] d h = grind arith
one_visible test (c ∷ []) d h = grind arith
one_visible test (b ∷ c ∷ ds) d h = grind arith

rows_of-id :
    (id : Text) (rows ds : List Document) (d : Document) → rows_of id rows ≡ d ∷ ds → d.id ≡ id
rows_of-id id [] ds d h = grind arith
rows_of-id id (r ∷ rows) ds d h = elim (Bool-cases (r.id == id)) [
  | inl same ↦ grind (arith, text_eq_iff r.id id)
  | inr other ↦ rows_of-id id rows ds d (ground (arith, h, other))
]

-- The rows with the id of an updated row are all that row, and the other rows stay.
rows_of-update :
    (id : Text) (e : Document) (rows : List Document)
    → e.id ≡ id
    → rows_of id (map (λ r. if r.id == e.id then e else r) rows) ≡ map (λ r. e) (rows_of id rows)
rows_of-update id e [] same = refl
rows_of-update id e (r ∷ rows) same = ground (
  arith,
  rows_of-update id e rows same,
  text_eq_iff e.id id,
  text_eq_iff r.id id,
  text_eq_iff r.id e.id,
)

rows_of-update_other :
    (j : Text) (e : Document) (rows : List Document)
    → (e.id == j) ≡ false
    → rows_of j (map (λ r. if r.id == e.id then e else r) rows) ≡ rows_of j rows
rows_of-update_other j e [] other = refl
rows_of-update_other j e (r ∷ rows) other = ground (
  arith,
  rows_of-update_other j e rows other,
  text_eq_iff e.id j,
  text_eq_iff r.id j,
  text_eq_iff r.id e.id,
)

get-found :
    (id owner : Text) (w : World) (d : Document)
    → get id owner w ≡ ok d
    → (rows_of id w.rows ≡ d ∷ []) × (is_listed owner d ≡ true)
unfolding get get_by_id
get-found id owner w d h = one_visible (is_listed owner) (rows_of id w.rows) d h

-- `get` reads only the rows with the id.
get-rows_of :
    (id owner : Text) (w w' : World)
    → rows_of id w'.rows ≡ rows_of id w.rows
    → get id owner w' ≡ get id owner w
unfolding get get_by_id
get-rows_of id owner w w' e = ap (λ ds. one_document ds >>= visible (is_listed owner)) e

pub get-only :
    (id owner : Text) (w : World) (d : Document)
    → rows_of id w.rows ≡ d ∷ []
    → get id owner w ≡ visible (is_listed owner) (some d)
unfolding get get_by_id one_document
get-only id owner w d e = rw e refl

module _ (settings : Settings) {Worker : Type 0}
    (request : Text → Text → Worker → Result ℕ × Worker) where
  -- How a deletion may end.
  abbrev pub IsDeletion : Text → Text → World → Result (Unit {0}) × World × Worker → Type 0
  IsDeletion id owner w (raise e, w', worker') = w' ≡ w
  IsDeletion id owner w (ok u, w', worker') =
      (d : Document) × (get id owner w ≡ ok d)
      × ((reader : Text) → get id reader w' ≡ raise not_found)
      × ((j reader : Text) → (id == j) ≡ false → get j reader w' ≡ get j reader w)
      × (lookup d.storage_path w'.files ≡ none)
      × (lookup (chunks_path settings.upload_dir id) w'.files ≡ none)

  remove_document-IsDeletion :
      (id owner : Text) (w : World) (worker : Worker) (d : Document)
      → get id owner w ≡ ok d
      → IsDeletion id owner w (ok tt, remove_document settings id d w, worker)
  unfolding remove_document
  remove_document-IsDeletion id owner w worker d found =
      let (only, listed) = get-found id owner w d found in
      let same = rows_of-id id w.rows [] d only in
      let gone : Document = record d { is_deleted = true } in
      let c = chunks_path settings.upload_dir id in
      (
        d,
        found,
        λ reader.
            get-only id reader (remove_document settings id d w) gone
              (rows_of-update id gone w.rows same ∙ ap (map (λ r. gone)) only)
            ∙ ground arith,
        λ j reader other.
            get-rows_of j reader w (remove_document settings id d w)
              (rows_of-update_other j gone w.rows (rw same other)),
        ground (
          arith,
          lookup-erase c d.storage_path (erase d.storage_path w.files),
          lookup-erase d.storage_path d.storage_path w.files,
          text_eq_iff d.storage_path d.storage_path,
        ),
        ground (arith, lookup-erase c c (erase d.storage_path w.files), text_eq_iff c c),
      )

  delete_answered :
      (id owner : Text) (w : World) (worker : Worker) (d : Document) (n : ℕ)
      → get id owner w ≡ ok d
      → (request id owner worker).0 ≡ ok n
      → delete settings request id owner w worker
        ≡ (ok tt, remove_document settings id d w, (request id owner worker).1)
  unfolding delete
  delete_answered id owner w worker d n found answered = ground (arith, found, answered)

  delete_refused :
      (id owner : Text) (w : World) (worker : Worker) (e : Exception)
      → get id owner w ≡ raise e
      → delete settings request id owner w worker ≡ (raise e, w, worker)
  unfolding delete
  delete_refused id owner w worker e refused = ground (arith, refused)

  delete_failed :
      (id owner : Text) (w : World) (worker : Worker) (d : Document) (e : Exception)
      → get id owner w ≡ ok d
      → (request id owner worker).0 ≡ raise e
      → delete settings request id owner w worker ≡ (raise e, w, (request id owner worker).1)
  unfolding delete
  delete_failed id owner w worker d e found failed = ground (arith, found, failed)

  -- A deletion that raises changes neither the table, nor the files, nor the queue. One that
  -- succeeds was of a document that its owner could read; afterwards nobody can read that document,
  -- every other document reads as before, and the files of the document are gone.
  pub delete-IsDeletion :
      (id owner : Text) (w : World) (worker : Worker)
      → IsDeletion id owner w (delete settings request id owner w worker)
  delete-IsDeletion id owner w worker = elim (Result-cases (get id owner w)) [
    | inr (e, refused) ↦ rw (delete_refused id owner w worker e refused) refl
    | inl (d, found) ↦ elim (Result-cases (request id owner worker).0) [
      | inr (e, failed) ↦ rw (delete_failed id owner w worker d e found failed) refl
      | inl (n, answered) ↦
          let result = remove_document-IsDeletion id owner w (request id owner worker).1 d found in
          rw (delete_answered id owner w worker d n found answered) result
    ]
  ]

-- The row that `admin_reprocess` leaves under the id, and what it leaves around it.
abbrev pub IsReset : Settings → Text → World → Document → World → Type 0
IsReset settings id w d w' =
    (d.status ≡ pending)
    × (d.error_message ≡ none)
    × (get id d.owner_id w' ≡ ok d)
    × ((j reader : Text) → (id == j) ≡ false → get j reader w' ≡ get j reader w)
    × (exists_file (lookup (chunks_path settings.upload_dir id) w'.files) ≡ true)

-- How it may end: it changes nothing, its task could not be sent, or it is done.
abbrev pub IsRequeued : Settings → Text → World → Result Document × World → Type 0
IsRequeued settings id w (raise e, w') =
    (w' ≡ w)
    ⊎ ((d : Document) × (message : Text) × (w.send_raises ≡ some message)
        × (e ≡ Exception.unhandled message)
        × IsReset settings id w d w'
        × (w'.sent ≡ w.sent))
IsRequeued settings id w (ok d, w') = IsReset settings id w d w' × (w'.sent ≡ w.sent ++ id ∷ [])

module _ (settings : Settings) where
  update-IsReset :
      (id : Text) (w w' : World) (d : Document)
      → rows_of id w.rows ≡ d ∷ []
      → d.is_deleted ≡ false
      → exists_file (lookup (chunks_path settings.upload_dir id) w.files) ≡ true
      → let reset : Document = record d { status = pending; error_message = none } in
        w'.rows ≡ (update reset w).rows → w'.files ≡ w.files → IsReset settings id w reset w'
  update-IsReset id w w' d only kept there rows files =
      let reset : Document = record d { status = pending; error_message = none } in
      let same = rows_of-id id w.rows [] d only in
      (
        refl,
        refl,
        get-only id d.owner_id w' reset (
              ap (rows_of id) rows
              ∙ rows_of-update id reset w.rows same
              ∙ ap (map (λ r. reset)) only)
            ∙ ground (arith, kept, text_eq_iff d.owner_id d.owner_id),
        λ j reader other.
            get-rows_of j reader w w'
              (ap (rows_of j) rows ∙ rows_of-update_other j reset w.rows (rw same other)),
        rw files there,
      )

  requeue-IsRequeued :
      (id : Text) (w : World) (d : Document)
      → rows_of id w.rows ≡ d ∷ []
      → d.is_deleted ≡ false
      → IsRequeued settings id w (requeue settings id d w)
  unfolding requeue
  requeue-IsRequeued id w d only kept =
      let reset : Document = record d { status = pending; error_message = none } in
      elim (Bool-cases (exists_file (lookup (chunks_path settings.upload_dir id) w.files))) [
        | inr missing ↦ rw missing (inl refl)
        | inl there ↦ rw there (elim (Option-cases w.send_raises) [
          | inl sends ↦
              subst (IsRequeued settings id w)
                (sym (send_task-sent id reset (update reset w) sends))
                (
                  update-IsReset id w (record (update reset w) { sent = w.sent ++ id ∷ [] }) d only
                      kept there refl refl,
                  refl,
                )
          | inr (message, down) ↦
              subst (IsRequeued settings id w)
                (sym (send_task-unsent id reset (update reset w) message down))
                (inr (
                  reset,
                  message,
                  down,
                  refl,
                  update-IsReset id w (update reset w) d only kept there refl refl,
                  refl,
                ))
        ])
      ]

  abbrev found_by : Text → World → Result Document
  found_by id w = one_document (rows_of id w.rows) >>= visible (λ d. not d.is_deleted)

  reprocess_refused :
      (id : Text) (w : World) (e : Exception)
      → found_by id w ≡ raise e
      → admin_reprocess settings id w ≡ (raise e, w)
  unfolding admin_reprocess get_by_id
  reprocess_refused id w e refused = ground (arith, refused)

  reprocess_found :
      (id : Text) (w : World) (d : Document)
      → found_by id w ≡ ok d
      → admin_reprocess settings id w ≡ requeue settings id d w
  unfolding admin_reprocess get_by_id
  reprocess_found id w d found = ground (arith, found)

  -- A requeueing that succeeds leaves the document pending and without an error message, as its
  -- owner then reads it, sends one task for it, finds the sidecar on disk, and leaves every other
  -- document as it was. One that raises changes nothing, or, where the broker cannot be reached and
  -- the exception is that of `send_task`, leaves the same row but sends no task.
  pub admin_reprocess-IsRequeued :
      (id : Text) (w : World) → IsRequeued settings id w (admin_reprocess settings id w)
  admin_reprocess-IsRequeued id w =
      let test : Document → Bool = λ d. not d.is_deleted in
      elim (Result-cases (found_by id w)) [
        | inr (e, refused) ↦ rw (reprocess_refused id w e refused) (inl refl)
        | inl (d, found) ↦
            let (only, kept) = one_visible test (rows_of id w.rows) d found in
            rw (reprocess_found id w d found) (requeue-IsRequeued id w d only (ground arith))
      ]
