-- ===== src/ChatService/QueryRoute/Frames.antt =====
-- The body of `query_stream`, as a client of server-sent events reads it back.
use mathlib.Core.List.{append_assoc, append-nil}
use ai_document_analysis.Prelude.{
  All-append, All-excludes, ℕ, ◌≡◌, ◌≢◌, refl, sym, ap, ◌∙◌, false, Option, none, some, List, [],
  ◌∷◌, ◌++◌, map, concat, Text, codes, All, starts_with, drop, nat_eq, arith, if◌then◌else◌,
}
use ai_document_analysis.Shared.Exceptions.{Exception, Result}
use ai_document_analysis.Shared.Json.{Json}
use ai_document_analysis.Shared.Json.Codec.{Codec}
use ai_document_analysis.Shared.Redis.Server.{Redis}
use ai_document_analysis.ChatService.RagService.{SourceChunk}
use ai_document_analysis.ChatService.RagService.Answering.{Query, answer_stream}
use ai_document_analysis.ChatService.QueryRoute.{sent, frame, query_stream}

-- The lines of a text, without their line breaks. A line that no break ends is left out.
abbrev pub lines_from : Text → Text → List Text
lines_from line [] = []
lines_from line (c ∷ t) =
    let ended = lines_from [] t in
    let longer = lines_from (line ++ c ∷ []) t in if nat_eq c 10 then line ∷ ended else longer

module _ (C : Codec) where
  -- The data of the events: what stands behind `data: ` in the lines that begin so.
  abbrev pub data_of_lines : List Text → List Json
  data_of_lines [] = []
  data_of_lines (line ∷ lines) =
      let rest = data_of_lines lines in
      if starts_with (codes "data: ") line
      then elim (C.loads (drop 6 line)) [ none ↦ rest | some j ↦ j ∷ rest ]
      else rest

  -- A client that reads lines and takes the data of each event.
  abbrev pub read_events : Text → List Json
  read_events body = data_of_lines (lines_from [] body)

  lines_from-line :
      (before line rest : Text)
      → All (λ c. c ≢ 10) line
      → lines_from before (line ++ 10 ∷ rest) ≡ (before ++ line) ∷ lines_from [] rest
  lines_from-line before [] rest h = ap (λ b. b ∷ lines_from [] rest) (sym (append-nil before))
  lines_from-line before (c ∷ line) rest h =
      let other : nat_eq c 10 ≡ false = ground (arith, h.0) in
      rw other (
        lines_from-line (before ++ c ∷ []) line rest h.1
        ∙ ap (λ b. b ∷ lines_from [] rest) (append_assoc before (c ∷ []) line))

  data_line : Json → Text
  data_line j = codes "data: " ++ C.dumps j

  data_line_unbroken : (j : Json) → All (λ c. c ≢ 10) (data_line j)
  unfolding data_line
  data_line_unbroken j =
      All-append (λ c. c ≢ 10) (codes "data: ") (C.dumps j) (All-excludes 10 (codes "data: ") refl)
        (C.dumps_line j)

  read_events-frame :
      (j : Json) (rest : Text) → read_events (frame C j ++ rest) ≡ j ∷ read_events rest
  unfolding data_line starts_with
  read_events-frame j rest =
      let lines : lines_from [] (frame C j ++ rest) ≡ data_line j ∷ [] ∷ lines_from [] rest =
        ap (λ t. lines_from [] (codes "data: " ++ t)) (append_assoc (C.dumps j) (codes "\n\n") rest)
        ∙ lines_from-line [] (data_line j) (10 ∷ rest) (data_line_unbroken j) in
      ap data_of_lines lines ∙ rw (C.loads-dumps j) refl

  read_events-frames : (js : List Json) → read_events (concat (map (frame C) js)) ≡ js
  read_events-frames [] = refl
  read_events-frames (j ∷ js) =
      read_events-frame j (concat (map (frame C) js))
      ∙ ap (λ rest. j ∷ rest) (read_events-frames js)

  -- A client that reads the body of `query_stream` line by line finds exactly the events that the
  -- service yields, in their order and with nothing lost at a line break in a text, and after them
  -- one error exactly where the service ends in an exception.
  pub query_stream-read_events :
      {Score : Type 0} (score_json : Score → Json) (R : Redis) (str_of : ℕ → Text)
      (sha256_hex : Text → Text) (s : R.Server) (now later : ℕ)
      (worker : Text → ℕ → Json → Text → Result (List (SourceChunk Score)))
      (generate_stream : Text → List Json × Option Exception) (q : Query)
      → let streamed = answer_stream R str_of sha256_hex s now later worker generate_stream q in
        read_events
          (query_stream score_json C R str_of sha256_hex s now later worker generate_stream q).0
        ≡ sent score_json streamed.0 streamed.1
  unfolding query_stream
  query_stream-read_events score_json R str_of sha256_hex s now later worker generate_stream q =
      let streamed = answer_stream R str_of sha256_hex s now later worker generate_stream q in
      read_events-frames (sent score_json streamed.0 streamed.1)
