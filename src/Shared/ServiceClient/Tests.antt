-- ===== src/Shared/ServiceClient/Tests.antt =====
-- An upstream that times out once and then answers, under three attempts.
use ai_document_analysis.Prelude.{ℕ, zero, suc, ◌-◌, ◌≤◌, ◌<◌, ◌≡◌, true, none, Text, [], codes}
use ai_document_analysis.Shared.ServiceClient.{
  Attempt, responded, retryable, is_retried, answer_of, request,
}
use ai_document_analysis.Shared.ServiceClient.Retries.{request-IsLast}

abbrev times_out_once : ℕ → Attempt
times_out_once zero = retryable (codes "timed out")
times_out_once (suc n) =
    responded (record { status_code = 200; content = codes "{}"; retry_after = none })

abbrev no_text : Attempt → Text
no_text a = []

request-IsLast_example :
    (k : ℕ) × (request no_text 3 times_out_once ≡ (answer_of no_text (times_out_once k), suc k))
    × (k ≤ 3 - 1)
    × ((j : ℕ) → j < k → is_retried (times_out_once j) ≡ true)
    × (is_retried (times_out_once k) ≡ true → k ≡ 3 - 1)
request-IsLast_example = request-IsLast no_text 3 times_out_once
