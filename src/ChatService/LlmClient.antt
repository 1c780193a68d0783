-- ===== src/ChatService/LlmClient.antt =====
-- chat-service/app/services/llm_client.py: `GeminiClient`. `post` is what the n-th call of
-- ServiceClient.post comes to, and `float_ms` is Python's `float`, in milliseconds; `shown` is the
-- text of a body in an error message. Waits are returned, in milliseconds.
pub mod Retries
pub mod Generating
pub mod Streaming
mod Tests
use ai_document_analysis.Prelude.{
  ℕ, zero, suc, ◌*◌, Bool, true, false, not, ◌||◌, ◌⊎◌, inl, inr, Option, none, some, List, [], ◌∷◌,
  ◌++◌, Text, codes, starts_with, strip, drop, is_empty, leb, nat_eq, if◌then◌else◌,
}
use ai_document_analysis.Shared.Exceptions.{Exception, Result, ok, raise, raise_if, ◌>>=◌, ◌>>◌}
use ai_document_analysis.Shared.Json.{
  Json, str, arr, obj, nil, cons, end, field, Fetched, value, key_error, index_error, type_error,
  at_key, at_zero, ◌then_at◌, is_truthy,
}
use ai_document_analysis.Shared.Json.Codec.{Codec}
use ai_document_analysis.Shared.ServiceClient.{Response}

pub record Settings : Type 0 where
  pub gemini_api_key : Text
  pub gemini_model : Text

-- `_MAX_RATE_LIMIT_RETRIES`
abbrev pub max_rate_limit_retries : ℕ
max_rate_limit_retries = 3

-- `data["candidates"][0]["content"]["parts"][0]["text"]`
abbrev pub text_of : Json → Fetched
text_of body =
    at_key (codes "candidates") body
    then_at at_zero
    then_at at_key (codes "content")
    then_at at_key (codes "parts")
    then_at at_zero
    then_at at_key (codes "text")

-- `{"contents": [{"parts": [{"text": prompt}]}]}`
abbrev pub body_of : Text → Json
body_of prompt =
    let parts = arr (cons (obj (field (codes "text") (str prompt) end)) nil) in
    obj (field (codes "contents") (arr (cons (obj (field (codes "parts") parts end)) nil)) end)

abbrev pub not_configured : Exception
not_configured = Exception.llm_error (codes "GEMINI_API_KEY is not configured")

abbrev pub rate_limited : Exception
rate_limited =
    Exception.llm_rate_limited
      (codes "Gemini API rate limit / quota exceeded. Please try again shortly.")

abbrev pub is_429 : Response → Bool
is_429 r = nat_eq r.status_code 429

abbrev pub is_dict : Json → Bool
is_dict (obj fields) = true
is_dict Json.null = false
is_dict (Json.bool b) = false
is_dict (Json.number n) = false
is_dict (Json.other_number t) = false
is_dict (str t) = false
is_dict (arr items) = false

module _ (float_ms : Text → Option ℕ) where
  -- `float(retry_after) if retry_after else delay`; none is a ValueError.
  abbrev pub wait_of : Option Text → ℕ → Option ℕ
  wait_of none delay = some delay
  wait_of (some []) delay = some delay
  wait_of (some (c ∷ header)) delay = float_ms (c ∷ header)

  -- The rest of a round that was rate limited: the wait, then what the next rounds come to.
  abbrev pub wait_then : Option ℕ → Result Response × List ℕ → Result Response × List ℕ
  wait_then none (answer, waits) =
      (raise (Exception.unhandled (codes "could not convert string to float")), [])
  wait_then (some wait) (answer, waits) = (answer, wait ∷ waits)

  -- The loop of `_post_with_rate_limit_retry` from its round `n` on, with `left` retries after it.
  pub post_from : (ℕ → Result Response) → ℕ → ℕ → ℕ → Result Response × List ℕ
  post_from post zero n delay = (post n, [])
  post_from post (suc left) n delay =
      let rest = post_from post left (suc n) (delay * 2) in
      elim (post n) [
        | raise e ↦ (raise e, [])
        | ok r ↦ if is_429 r then wait_then (wait_of r.retry_after delay) rest else (ok r, [])
      ]

  pub post_with_rate_limit_retry : (ℕ → Result Response) → Result Response × List ℕ
  unfolding post_from
  post_with_rate_limit_retry post = post_from post max_rate_limit_retries 0 1000

-- `_client.stream`: what opening it raises, or the response with its lines; `broken` is what ends
-- the lines early, if anything does.
pub record Opened : Type 0 where
  pub response : Response
  pub lines : List Text
  pub broken : Option Exception

-- One line: skipped, a text that is yielded, or a TypeError, which is not caught.
pub data Delta : Type 0 where
  skipped : Delta
  yielded : Json → Delta
  failed : Delta

abbrev pub delta_from : Fetched → Delta
delta_from (value j) = if is_truthy j then yielded j else skipped
delta_from key_error = skipped
delta_from index_error = skipped
delta_from type_error = failed

module _ (C : Codec) (shown : Json ⊎ Text → Text) where
  -- `response.json()`, or `response.text` where that is a ValueError
  abbrev pub data_of : Response → Json ⊎ Text
  data_of r = elim (C.loads r.content) [ none ↦ inr r.content | some j ↦ inl j ]

  abbrev pub unexpected : Json ⊎ Text → Exception
  unexpected d = Exception.llm_error (codes "Unexpected Gemini response shape: " ++ shown d)

  -- The last `try` of `generate`: a TypeError is not caught.
  abbrev pub answer_of : Json → Fetched → Result Json
  answer_of body (value j) = ok j
  answer_of body key_error = raise (unexpected (inl body))
  answer_of body index_error = raise (unexpected (inl body))
  answer_of body type_error = raise (Exception.unhandled (codes "TypeError"))

  abbrev pub answer_from : Json ⊎ Text → Result Json
  answer_from (inr text) = raise (unexpected (inr text))
  answer_from (inl body) =
      if is_dict body then answer_of body (text_of body) else raise (unexpected (inl body))

  -- The tests of the status code.
  abbrev pub check_status : (ℕ → Text) → Response → Result (Unit {0})
  check_status str_of r = do
    raise_if (is_429 r) rate_limited
    raise_if (leb 400 r.status_code) (
        Exception.llm_error
          (codes "Gemini API error " ++ str_of r.status_code ++ codes ": " ++ shown (data_of r)))

  -- `generate`, with what `_client.post` comes to at each call and with the waits
  pub generate :
      (ℕ → Text)
      → (Text → Option ℕ)
      → Settings
      → (Text → Json → ℕ → Result Response)
      → Text
      → Result Json × List ℕ
  unfolding post_with_rate_limit_retry
  generate str_of float_ms settings post prompt =
      if is_empty settings.gemini_api_key
      then (raise not_configured, [])
      else let url =
          codes "/models/"
          ++ settings.gemini_model
          ++ codes ":generateContent?key="
          ++ settings.gemini_api_key in
        let (answered, waits) = post_with_rate_limit_retry float_ms (post url (body_of prompt)) in
        (
          (do response ← answered; check_status str_of response; answer_from (data_of response)),
          waits,
        )

  abbrev pub delta_of : Text → Delta
  delta_of line =
      let payload = strip (drop 6 line) in
      if not (starts_with (codes "data: ") line) || is_empty payload
      then skipped
      else elim (C.loads payload) [ none ↦ skipped | some chunk ↦ delta_from (text_of chunk) ]

  -- The loop over the lines: the texts, and the exception that ends it, if any.
  pub stream_lines : List Text → Option Exception → List Json × Option Exception
  stream_lines [] broken = ([], broken)
  stream_lines (line ∷ lines) broken =
      let (deltas, ended) = stream_lines lines broken in
      elim (delta_of line) [
        | skipped ↦ (deltas, ended)
        | yielded j ↦ (j ∷ deltas, ended)
        | failed ↦ ([], some (Exception.unhandled (codes "TypeError")))
      ]

  pub generate_stream :
      (ℕ → Text) → Settings → (Text → Json → Result Opened) → Text → List Json × Option Exception
  unfolding stream_lines
  generate_stream str_of settings stream prompt =
      if is_empty settings.gemini_api_key
      then ([], some not_configured)
      else let url =
          codes "/models/"
          ++ settings.gemini_model
          ++ codes ":streamGenerateContent?alt=sse&key="
          ++ settings.gemini_api_key in
        elim (stream url (body_of prompt)) [
          | raise e ↦ ([], some e)
          | ok opened ↦ elim (check_status str_of opened.response) [
            | raise e ↦ ([], some e)
            | ok u ↦ stream_lines opened.lines opened.broken
          ]
        ]

-- `prompt_cache_key`
unfoldable pub prompt_cache_key : (Text → Text) → Text → Text → Text
prompt_cache_key sha256_hex question context =
    codes "llm_response:" ++ sha256_hex (question ++ codes "|" ++ context)
