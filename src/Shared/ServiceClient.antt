-- ===== src/Shared/ServiceClient.antt =====
-- shared/clients/service_client.py: `_send` under tenacity's `retry`, and `_request`. What the n-th
-- attempt of httpx comes to is the argument `attempt`; a call also returns how many attempts it
-- made.
pub mod Retries
mod Tests
use ai_document_analysis.Prelude.{
  ℕ, zero, suc, ◌-◌, Bool, true, false, Option, Text, leb, if◌then◌else◌,
}
use ai_document_analysis.Shared.Exceptions.{Exception, Result, ok, raise}

-- `retry_after` is the one header that a caller reads.
pub record Response : Type 0 where
  pub status_code : ℕ
  pub content : Text
  pub retry_after : Option Text

-- What one attempt comes to: a response, one of RETRYABLE_EXCEPTION, or another exception.
pub data Attempt : Type 0 where
  responded : Response → Attempt
  retryable other : Text → Attempt

-- `retry_if_exception_type(RETRYABLE_EXCEPTION)`: the status error of a 5xx is none of these.
abbrev pub is_retried : Attempt → Bool
is_retried (responded r) = false
is_retried (retryable message) = true
is_retried (other message) = false

-- `retry(stop=stop_after_attempt(…), reraise=True)`: `left` more attempts may follow the next one,
-- which has the number `n`.
pub send : (ℕ → Attempt) → ℕ → ℕ → Attempt × ℕ
send attempt zero n = (attempt n, suc n)
send attempt (suc left) n =
    let rest = send attempt left (suc n) in
    if is_retried (attempt n) then rest else (attempt n, suc n)

-- The end of `_send` and the `except` of `_request`; `failure` makes the text of the message.
abbrev pub answer_of : (Attempt → Text) → Attempt → Result Response
answer_of failure (responded r) =
    if leb 500 r.status_code
    then raise (Exception.upstream_service (failure (responded r)))
    else ok r
answer_of failure (retryable message) =
    raise (Exception.upstream_service (failure (retryable message)))
answer_of failure (other message) = raise (Exception.unhandled message)

-- `_request`, which tries once where HTTP_MAX_RETRIES is 0
pub request : (Attempt → Text) → ℕ → (ℕ → Attempt) → Result Response × ℕ
unfolding send
request failure max_retries attempt =
    let (last, made) = send attempt (max_retries - 1) 0 in (answer_of failure last, made)
