-- ===== src/DocumentService/Documents/Sending.antt =====
-- The two ends of `celery_app.send_task` in document_service.py.
use ai_document_analysis.Prelude.{◌≡◌, none, some, [], ◌∷◌, ◌++◌, Text, arith}
use ai_document_analysis.Shared.Exceptions.{Exception, ok, raise}
use ai_document_analysis.DocumentService.Documents.{Document, World, send_task}

pub send_task-sent :
    (id : Text) (d : Document) (w : World)
    → w.send_raises ≡ none
    → send_task id d w ≡ (ok d, record w { sent = w.sent ++ id ∷ [] })
unfolding send_task
send_task-sent id d w e = ground (arith, e)

pub send_task-unsent :
    (id : Text) (d : Document) (w : World) (message : Text)
    → w.send_raises ≡ some message
    → send_task id d w ≡ (raise (Exception.unhandled message), w)
unfolding send_task
send_task-unsent id d w message e = ground (arith, e)
