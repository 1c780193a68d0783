-- ===== src/ChatService/LlmClient/Generating.antt =====
-- `generate`: what its errors are.
use ai_document_analysis.Prelude.{
  ℕ, ◌<◌, ◌≡◌, ◌≢◌, refl, inl, ◌⊎◌, true, false, Option, none, some, [], ◌∷◌, ◌++◌, Text, is_empty,
  codes, leb, arith,
}
use ai_document_analysis.Shared.Exceptions.{Exception, Result, ok, raise, ◌>>=◌, ◌>>◌, status_code}
use ai_document_analysis.Shared.Json.{Json, type_error}
use ai_document_analysis.Shared.Json.Codec.{Codec}
use ai_document_analysis.Shared.ServiceClient.{Response}
use ai_document_analysis.ChatService.LlmClient.{
  Settings, text_of, body_of, is_429, is_dict, wait_of, post_from, post_with_rate_limit_retry,
  data_of, answer_from, check_status, generate,
}

-- 502 for a failure of the model, 429 for its rate limit.
abbrev pub IsModelError : Exception → Type 0
IsModelError e = (status_code e ≡ 502) ⊎ (status_code e ≡ 429)

-- An answer is a value, or an exception of the model.
abbrev pub IsClean : {A : Type 0} → Result A → Type 0
IsClean (ok a) = Unit
IsClean (raise e) = IsModelError e

-- A response whose Retry-After, if it has one, is a number; or an exception of the model.
abbrev pub IsReadable : (Text → Option ℕ) → Result Response → Type 0
IsReadable float_ms (raise e) = IsModelError e
IsReadable float_ms (ok r) = (delay : ℕ) → wait_of float_ms r.retry_after delay ≢ none

module _ (C : Codec) (shown : Json ⊎ Text → Text) where
  -- A body that Python can index down to the text, or that it finds a key or an item missing in.
  abbrev pub IsIndexable : Response → Type 0
  IsIndexable r = (j : Json) → C.loads r.content ≡ some j → text_of j ≢ type_error

  loads-data_of : (r : Response) (j : Json) → C.loads r.content ≡ some j → data_of C shown r ≡ inl j
  loads-data_of r j h = ground arith

  read_answer : (ℕ → Text) → Result Response → Result Json
  read_answer str_of answered = do
    response ← answered
    check_status C shown str_of response
    answer_from C shown (data_of C shown response)

  module _ (str_of : ℕ → Text) (float_ms : Text → Option ℕ) (settings : Settings)
      (post : Text → Json → ℕ → Result Response) (prompt : Text) where
    abbrev url : Text
    url =
        codes "/models/"
        ++ settings.gemini_model
        ++ codes ":generateContent?key="
        ++ settings.gemini_api_key

    generate-read_answer :
        is_empty settings.gemini_api_key ≡ false
        → generate C shown str_of float_ms settings post prompt ≡ (
          read_answer str_of (post_with_rate_limit_retry float_ms (post url (body_of prompt))).0,
          (post_with_rate_limit_retry float_ms (post url (body_of prompt))).1,
        )
    unfolding generate read_answer
    generate-read_answer configured = rw configured refl

    -- A body of an answer with a status below 400 in which an index meets a value of the wrong
    -- type, such as null for the content, ends in an error of 500 and not in one of the model.
    pub generate-type_error :
        (r : Response) (j : Json)
        → is_empty settings.gemini_api_key ≡ false
        → post url (body_of prompt) 0 ≡ ok r
        → r.status_code < 400
        → C.loads r.content ≡ some j
        → is_dict j ≡ true
        → text_of j ≡ type_error
        → (generate C shown str_of float_ms settings post prompt).0
          ≡ raise (Exception.unhandled (codes "TypeError"))
    unfolding read_answer post_with_rate_limit_retry post_from
    generate-type_error r j configured responded fine parsed dict broken =
        let other : is_429 r ≡ false = ground arith in
        let below : leb 400 r.status_code ≡ false = ground arith in
        rw
          (
            generate-read_answer configured,
            responded,
            other,
            other,
            below,
            loads-data_of r j parsed,
            answer_from,
            dict,
            broken,
          )
          refl

    -- A 429 whose Retry-After is not a number, such as a date, ends in an error of 500 and not in
    -- one of the rate limit, and nothing is tried again.
    pub generate-bad_header :
        (r : Response) (c : ℕ) (header : Text)
        → is_empty settings.gemini_api_key ≡ false
        → post url (body_of prompt) 0 ≡ ok r
        → r.status_code ≡ 429
        → r.retry_after ≡ some (c ∷ header)
        → float_ms (c ∷ header) ≡ none
        → generate C shown str_of float_ms settings post prompt
          ≡ (raise (Exception.unhandled (codes "could not convert string to float")), [])
    unfolding read_answer post_with_rate_limit_retry post_from
    generate-bad_header r c header configured responded limited there unreadable =
        rw (generate-read_answer configured, responded, limited, there, unreadable) refl
