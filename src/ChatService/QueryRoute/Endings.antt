-- ===== src/ChatService/QueryRoute/Endings.antt =====
-- How the events of `query_stream` end.
use mathlib.Core.List.{append_assoc, map-append}
use ai_document_analysis.Prelude.{
  ℕ, ◌≡◌, refl, sym, ap, ◌∙◌, inl, inr, Bool, true, false, ◌||◌, Option, none, some, List, [], ◌∷◌,
  ◌++◌, map, Text, codes, text_eq, ◌==◌, text-Eq, All, All-append, Bool-cases,
}
use ai_document_analysis.Shared.Exceptions.{Exception, Result, ok, raise, Result-cases}
use ai_document_analysis.Shared.Json.{Json, str, value, at_key}
use ai_document_analysis.Shared.Redis.{cache_prefix, cache_get}
use ai_document_analysis.Shared.Redis.Server.{Redis}
use ai_document_analysis.ChatService.RagService.{SourceChunk, or_none, resolve_document_scope}
use ai_document_analysis.ChatService.RagService.Answering.{
  Event, Query, Kept, finish, is_some, cache_key_of, context_of, keep_turn, after_deltas,
  build_prompt, answer_stream, stream_with,
}
use ai_document_analysis.ChatService.QueryRoute.{event_json, error_json, message_of, sent}

-- An event of the type done or error.
abbrev pub is_last : Json → Bool
is_last j = elim (at_key (codes "type") j) [
  | value (str t) ↦ t == codes "done" || t == codes "error"
  | _ ↦ false
]

module _ {Score : Type 0} where
  abbrev is_done : Event Score → Bool
  is_done (Event.sources found) = false
  is_done (Event.delta text) = false
  is_done (Event.done cached) = true

  -- The events end in the first one that is done, or in an exception without one.
  abbrev Ends : List (Event Score) → Option Exception → Type 0
  Ends events none =
      (before : List (Event Score)) × (cached : Bool) × (events ≡ before ++ Event.done cached ∷ [])
      × All (λ e. is_done e ≡ false) before
  Ends events (some e) = All (λ e. is_done e ≡ false) events

  Ends-cons :
      (first : Event Score) (events : List (Event Score)) (ended : Option Exception)
      → is_done first ≡ false
      → Ends events ended
      → Ends (first ∷ events) ended
  Ends-cons first events none h (before, cached, same, all) =
      (first ∷ before, cached, ap (λ es. first ∷ es) same, (h, all))
  Ends-cons first events (some e) h all = (h, all)

module _ (Score : Type 0) where
  All-delta :
      (parts : List Json) → All (λ e. is_done {Score = Score} e ≡ false) (map Event.delta parts)
  All-delta [] = tt
  All-delta (j ∷ parts) = (refl, All-delta parts)

module _ {Score : Type 0} where
  module _ (R : Redis) where
    finish-Ends :
        (before middle : List (Event Score)) (cached : Bool) (kept : Kept R)
        → All (λ e. is_done e ≡ false) before
        → All (λ e. is_done e ≡ false) middle
        → Ends
            (finish R before (middle ++ Event.done cached ∷ []) kept).0
            (finish R before (middle ++ Event.done cached ∷ []) kept).1
    finish-Ends before middle cached (ok u, s) hb hm = (
      before ++ middle,
      cached,
      sym (append_assoc before middle (Event.done cached ∷ [])),
      All-append (λ e. is_done e ≡ false) before middle hb hm,
    )
    finish-Ends before middle cached (raise e, s) hb hm = hb

    module _ (str_of : ℕ → Text) (sha256_hex : Text → Text) (s : R.Server) (now later : ℕ)
        (q : Query) where
      stream_with-Ends :
          (generate_stream : Text → List Json × Option Exception) (found : List (SourceChunk Score))
          → let streamed = stream_with R str_of sha256_hex s now later generate_stream q found in
            Ends streamed.0 streamed.1
      unfolding stream_with
      stream_with-Ends generate_stream found =
          let context = context_of str_of found in
          let key = cache_key_of sha256_hex q.owner_id q.question context in
          let cached = or_none (cache_get R cache_prefix s now key) in
          let streamed = generate_stream (build_prompt q.question context) in
          elim (Bool-cases (is_some cached)) [
            | inl hit ↦ rw hit (
                finish-Ends [] (Event.delta cached ∷ []) true (keep_turn R s now q cached) tt
                  (refl, tt))
            | inr miss ↦ rw miss (
                finish-Ends (map Event.delta streamed.0) [] false
                  (after_deltas R s later key q streamed) (All-delta Score streamed.0) tt)
          ]

      answer_stream-Ends :
          (worker : Text → ℕ → Json → Text → Result (List (SourceChunk Score)))
          (generate_stream : Text → List Json × Option Exception)
          → let streamed = answer_stream R str_of sha256_hex s now later worker generate_stream q in
            Ends streamed.0 streamed.1
      unfolding answer_stream
      answer_stream-Ends worker generate_stream =
          let scope = resolve_document_scope R s now q.owner_id q.session_id q.document_ids in
          elim (Result-cases (worker q.question q.top_k scope q.owner_id)) [
            | inr (e, failed) ↦ rw (failed, answer_stream) tt
            | inl (found, there) ↦
                let rest = stream_with R str_of sha256_hex s now later generate_stream q found in
                rw (there, answer_stream)
                  (Ends-cons (Event.sources found) rest.0 rest.1 refl
                    (stream_with-Ends generate_stream found))
          ]

module _ {Score : Type 0} (score_json : Score → Json) where
  is_last-event : (e : Event Score) → is_last (event_json score_json e) ≡ is_done e
  unfolding text_eq
  is_last-event (Event.sources found) = refl
  is_last-event (Event.delta text) = refl
  is_last-event (Event.done cached) = refl

  All-event :
      (events : List (Event Score))
      → All (λ e. is_done e ≡ false) events
      → All (λ j. is_last j ≡ false) (map (event_json score_json) events)
  All-event [] h = tt
  All-event (e ∷ events) h = (is_last-event e ∙ h.0, All-event events h.1)

  sent-Ends :
      (events : List (Event Score)) (ended : Option Exception)
      → Ends events ended
      → (before : List Json) × (last : Json) × (sent score_json events ended ≡ before ++ last ∷ [])
        × All (λ j. is_last j ≡ false) before
        × (is_last last ≡ true)
  unfolding text_eq
  sent-Ends events none (before, cached, same, all) = (
    map (event_json score_json) before,
    event_json score_json (Event.done cached),
    ap (map (event_json score_json)) same
        ∙ map-append (event_json score_json) before (Event.done cached ∷ []),
    All-event before all,
    refl,
  )
  sent-Ends events (some e) all = (
    map (event_json score_json) events,
    error_json score_json (message_of e),
    refl,
    All-event events all,
    refl,
  )

  -- Whatever happens, the events that `query_stream` sends are never empty: the last one is done or
  -- error, and no other one is.
  pub sent-answer_stream :
      (R : Redis) (str_of : ℕ → Text) (sha256_hex : Text → Text) (s : R.Server) (now later : ℕ)
      (q : Query) (worker : Text → ℕ → Json → Text → Result (List (SourceChunk Score)))
      (generate_stream : Text → List Json × Option Exception)
      → let streamed = answer_stream R str_of sha256_hex s now later worker generate_stream q in
        (before : List Json) × (last : Json) × (sent score_json streamed.0 streamed.1
          ≡ before ++ last ∷ [])
        × All (λ j. is_last j ≡ false) before
        × (is_last last ≡ true)
  sent-answer_stream R str_of sha256_hex s now later q worker generate_stream =
      let streamed = answer_stream R str_of sha256_hex s now later worker generate_stream q in
      sent-Ends streamed.0 streamed.1
        (answer_stream-Ends R str_of sha256_hex s now later q worker generate_stream)
