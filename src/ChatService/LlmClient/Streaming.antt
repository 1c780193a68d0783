-- ===== src/ChatService/LlmClient/Streaming.antt =====
-- `generate_stream`: which texts it yields.
use ai_document_analysis.Prelude.{
  ℕ, ◌<◌, ◌≡◌, refl, ◌⊎◌, false, none, List, [], ◌∷◌, ◌++◌, map, Text, is_empty, text_eq, codes,
  starts_with, leb, All, arith,
}
use ai_document_analysis.Shared.Exceptions.{Result, ok}
use ai_document_analysis.Shared.Json.{Json, str, arr, obj, nil, cons, end, field, value}
use ai_document_analysis.Shared.Json.Codec.{Codec}
use ai_document_analysis.ChatService.LlmClient.{
  Settings, Opened, skipped, text_of, delta_of, delta_from, stream_lines, generate_stream, is_429,
  body_of,
}

module _ (C : Codec) (shown : Json ⊎ Text → Text) where
  -- A chunk of Gemini's answer with one text.
  abbrev pub chunk_of : Text → Json
  chunk_of text =
      let part = obj (field (codes "text") (str text) end) in
      let content = obj (field (codes "parts") (arr (cons part nil)) end) in
      obj (
        field (codes "candidates") (arr (cons (obj (field (codes "content") content end)) nil)) end)

  -- The lines of a server-sent event with a chunk: its data, and the blank line that ends it.
  abbrev pub event_lines : List Text → List Text
  event_lines [] = []
  event_lines (text ∷ texts) = (codes "data: " ++ C.dumps (chunk_of text)) ∷ [] ∷ event_lines texts

  pub text_of-chunk_of : (text : Text) → text_of (chunk_of text) ≡ value (str text)
  unfolding text_eq
  text_of-chunk_of text = refl

  delta_of-data :
      (j : Json) → delta_of C shown (codes "data: " ++ C.dumps j) ≡ delta_from (text_of j)
  unfolding starts_with
  delta_of-data j = rw (C.strip-dumps j, C.dumps_some j, C.loads-dumps j) refl

  delta_of_blank : delta_of C shown [] ≡ skipped
  unfolding starts_with
  delta_of_blank = refl

  stream_lines-event_lines :
      (texts : List Text)
      → All (λ t. is_empty t ≡ false) texts
      → stream_lines C shown (event_lines texts) none ≡ (map str texts, none)
  unfolding stream_lines
  stream_lines-event_lines [] h = refl
  stream_lines-event_lines (text ∷ texts) h = ground (
    arith,
    h.0,
    delta_of-data (chunk_of text),
    text_of-chunk_of text,
    delta_of_blank,
    stream_lines-event_lines texts h.1,
  )

  stream_url : Settings → Text
  stream_url settings =
      codes "/models/"
      ++ settings.gemini_model
      ++ codes ":streamGenerateContent?alt=sse&key="
      ++ settings.gemini_api_key

  -- The stream of a successful answer whose events hold one text each, none of them empty, yields
  -- exactly these texts in their order, and ends without an exception.
  pub generate_stream-event_lines :
      (str_of : ℕ → Text) (settings : Settings) (stream : Text → Json → Result Opened)
      (prompt : Text) (opened : Opened) (texts : List Text)
      → is_empty settings.gemini_api_key ≡ false
      → ((url : Text) (body : Json) → stream url body ≡ ok opened)
      → opened.response.status_code < 400
      → opened.lines ≡ event_lines texts
      → opened.broken ≡ none
      → All (λ t. is_empty t ≡ false) texts
      → generate_stream C shown str_of settings stream prompt ≡ (map str texts, none)
  unfolding generate_stream stream_url
  generate_stream-event_lines str_of settings stream prompt opened texts configured connected below
        sent whole full =
      let limited : is_429 opened.response ≡ false = ground arith in
      let refused : leb 400 opened.response.status_code ≡ false = ground arith in
      rw
        (
          configured,
          connected (stream_url settings) (body_of prompt),
          limited,
          refused,
          sent,
          whole,
        )
        (stream_lines-event_lines texts full)
