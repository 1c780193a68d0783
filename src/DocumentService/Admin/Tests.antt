-- ===== src/DocumentService/Admin/Tests.antt =====
-- An administrator asks while one worker is busy and answers twice, and another only answers once.
use ai_document_analysis.Prelude.{◌≡◌, ◌≢◌, refl, inr, none, some, [], ◌∷◌, codes, text_eq}
use ai_document_analysis.Prelude.Order.{text_lt}
use ai_document_analysis.Shared.Exceptions.{Exception, ok, raise, status_code}
use ai_document_analysis.Shared.Oauth.{CurrentUser, require_role}
use ai_document_analysis.DocumentService.Admin.{Broker, QueueStatsResponse, queue_stats}
use ai_document_analysis.DocumentService.Admin.Report.{admin, IsReport, queue_stats-IsReport}

abbrev root : CurrentUser
root = record {
  id = codes "root";
  role = admin;
  raw_claims = record {
    sub = none;
    type = none;
    jti = none;
    iat = none;
    exp = none;
    email = none;
    role = admin;
  };
}

abbrev broker : Broker
broker = record {
  message_count = inr 3;
  active = inr (some ((codes "w2", codes "t1" ∷ []) ∷ []));
  reserved = inr (some ((codes "w1", []) ∷ (codes "w2", codes "t2" ∷ codes "t3" ∷ []) ∷ []));
}

abbrev report : QueueStatsResponse
report = record {
  pending_in_queue = 3;
  active_tasks = 1;
  reserved_tasks = 2;
  workers_online = codes "w1" ∷ codes "w2" ∷ [];
  error = none;
}

asked : queue_stats root broker ≡ ok report
unfolding queue_stats require_role text_eq text_lt
asked = refl

queue_stats-IsReport_example :
    (root.role ≡ admin
      → (r : QueueStatsResponse) × (queue_stats root broker ≡ ok r) × IsReport broker r)
    × (root.role ≢ admin
        → (e : Exception) × (queue_stats root broker ≡ raise e) × (status_code e ≡ 403))
queue_stats-IsReport_example = queue_stats-IsReport root broker
