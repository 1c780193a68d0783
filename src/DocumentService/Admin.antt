-- ===== src/DocumentService/Admin.antt =====
-- document-service/app/api/v1/admin.py and schemas/admin.py: the routes for administrators. What
-- RabbitMQ and the Celery workers answer is an argument.
pub mod Report
mod Tests
use ai_document_analysis.Prelude.{
  ℕ, ◌+◌, ◌⊎◌, inl, inr, Option, none, some, List, [], ◌∷◌, ◌++◌, map, Text, length,
}
use ai_document_analysis.Prelude.Order.{sorted_set}
use ai_document_analysis.Shared.Exceptions.{Exception, Result, ok, raise, ◌>>=◌}
use ai_document_analysis.Shared.Oauth.{CurrentUser, require_admin}
use ai_document_analysis.DocumentService.Documents.{Document, World, Settings, admin_reprocess}

-- What the workers answer to an inspection: their tasks by their names, or nothing.
abbrev pub Replies : Type 0
Replies = Option (List (Text × List Text))

-- How the calls of `_get_queue_stats` end: with the text of an exception, or an answer.
pub record Broker : Type 0 where
  pub message_count : Text ⊎ ℕ
  pub active : Text ⊎ Replies
  pub reserved : Text ⊎ Replies

pub record QueueStatsResponse : Type 0 where
  pub pending_in_queue : ℕ
  pub active_tasks : ℕ
  pub reserved_tasks : ℕ
  pub workers_online : List Text
  pub error : Option Text

-- `or {}`
abbrev pub or_no_workers : Replies → List (Text × List Text)
or_no_workers none = []
or_no_workers (some workers) = workers

-- `sum(len(tasks) for tasks in workers.values())`
abbrev pub total_tasks : List (Text × List Text) → ℕ
total_tasks [] = 0
total_tasks ((name, tasks) ∷ workers) = length tasks + total_tasks workers

abbrev pub names : List (Text × List Text) → List Text
names workers = map (λ w. w.0) workers

-- The returned dict.
pub stats_of : ℕ → List (Text × List Text) → List (Text × List Text) → QueueStatsResponse
unfolding sorted_set
stats_of pending active reserved = record {
  pending_in_queue = pending;
  active_tasks = total_tasks active;
  reserved_tasks = total_tasks reserved;
  workers_online = sorted_set (names active ++ names reserved);
  error = none;
}

-- `_get_queue_stats`; a call that raises ends it.
pub get_queue_stats : Broker → Text ⊎ QueueStatsResponse
unfolding stats_of
get_queue_stats b = elim b.message_count [
  | inl e ↦ inl e
  | inr pending ↦ elim b.active [
    | inl e ↦ inl e
    | inr active ↦ elim b.reserved [
      | inl e ↦ inl e
      | inr reserved ↦ inr (stats_of pending (or_no_workers active) (or_no_workers reserved))
    ]
  ]
]

-- The `except` block.
abbrev pub unknown_stats : Text → QueueStatsResponse
unknown_stats e = record {
  pending_in_queue = 0;
  active_tasks = 0;
  reserved_tasks = 0;
  workers_online = [];
  error = some e;
}

pub queue_stats : CurrentUser → Broker → Result QueueStatsResponse
unfolding get_queue_stats require_admin
queue_stats user b = do
  admin_user ← require_admin user
  ok (elim (get_queue_stats b) [ inl e ↦ unknown_stats e | inr stats ↦ stats ])

-- `reprocess_document`
pub reprocess_document : Settings → CurrentUser → Text → World → Result Document × World
unfolding require_admin
reprocess_document settings user document_id w = elim (require_admin user) [
  | raise e ↦ (raise e, w)
  | ok admin_user ↦ admin_reprocess settings document_id w
]
