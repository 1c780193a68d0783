-- ===== src/ChatService/RagService/Streams.antt =====
-- `answer_stream` against `answer`: the same effects and the same answer, piece by piece.
use mathlib.Core.List.{append-nil}
use ai_document_analysis.Prelude.{
  ℕ, ◌≡◌, refl, inl, inr, Bool, true, false, Option, none, some, List, [], ◌∷◌, ◌++◌, map, Text,
  Bool-cases,
}
use ai_document_analysis.Shared.Exceptions.{Exception, Result, ok, raise, Result-cases}
use ai_document_analysis.Shared.Json.{Json, null, str, arr, obj}
use ai_document_analysis.Shared.Redis.{cache_prefix, cache_get}
use ai_document_analysis.Shared.Redis.Server.{Redis}
use ai_document_analysis.ChatService.RagService.{SourceChunk, or_none, resolve_document_scope}
use ai_document_analysis.ChatService.RagService.Answering.{
  ChatQueryResponse, Event, Query, is_some, text_answer, join_parts, build_prompt, cache_key_of,
  context_of, Kept, keep_turn, keep, after_deltas, respond, finish, answer_with, answer,
  stream_with, answer_stream,
}

-- The model's stream comes to the model's answer: its parts make up the answer, or it ends in the
-- same exception.
abbrev pub IsStreamOf : List Json × Option Exception → Result Json → Type 0
IsStreamOf (parts, none) (ok j) = (t : Text) × ((j ≡ str t) × (join_parts parts ≡ ok t))
IsStreamOf (parts, some e) (raise e') = e ≡ e'
IsStreamOf (parts, some e) (ok j) = ⊥
IsStreamOf (parts, none) (raise e) = ⊥

module _ {Score : Type 0} where
  -- The events of a stream tell this answer: the sources, deltas that make it up, and the end.
  abbrev pub Tells : ChatQueryResponse Score → List (Event Score) → Type 0
  Tells r events =
      (parts : List Json) × (events
        ≡ Event.sources r.sources ∷ (map Event.delta parts ++ Event.done r.cached ∷ []))
      × (join_parts parts ≡ ok r.answer)

module _ {Score : Type 0} {Server : Type 0} where
  -- A stream and an answer end alike, in the same state of the server.
  pub record IsAlike (streamed : List (Event Score) × Option Exception × Server)
      (answered : Result (ChatQueryResponse Score) × Server) : Type 0 where
    pub same_server : streamed.2 ≡ answered.1
    pub told :
        (r : ChatQueryResponse Score) → answered.0 ≡ ok r → Tells r streamed.0 × (streamed.1 ≡ none)
    pub not_hidden : (e : Exception) → streamed.1 ≡ some e → answered.0 ≡ raise e

  abbrev after_sources :
      List (SourceChunk Score)
      → List (Event Score) × Option Exception × Server
      → List (Event Score) × Option Exception × Server
  after_sources found (events, ended, s) = (Event.sources found ∷ events, ended, s)

module _ (R : Redis) {Score : Type 0} where
  open R use {Server}

  finish-respond_str :
      (t : Text) (parts : List Json) (found : List (SourceChunk Score)) (cached : Bool)
      (kept : Kept R)
      → join_parts parts ≡ ok t
      → IsAlike
          (after_sources found (finish R (map Event.delta parts) (Event.done cached ∷ []) kept))
          (respond R (str t) found cached kept)
  finish-respond_str t parts found cached (ok u, s) joined = record {
    same_server = refl;
    told = λ r e. ((parts, cc, cc), refl);
    not_hidden = λ e h. cc;
  }
  finish-respond_str t parts found cached (raise e', s) joined = record {
    same_server = refl;
    told = λ r e. cc;
    not_hidden = λ e h. cc;
  }

  cached_bad :
      (c : Json) (e : Exception) (found : List (SourceChunk Score)) (kept : Kept R)
      → text_answer c ≡ raise e
      → IsAlike
          (after_sources found (finish R [] (Event.delta c ∷ Event.done true ∷ []) kept))
          (respond R c found true kept)
  cached_bad c e found (ok u, s) bad = record {
    same_server = refl;
    told = λ r h. cc;
    not_hidden = λ e h. cc;
  }
  cached_bad c e found (raise e', s) bad = record {
    same_server = refl;
    told = λ r h. cc;
    not_hidden = λ e h. cc;
  }

  cached_str :
      (t : Text) (found : List (SourceChunk Score)) (kept : Kept R)
      → IsAlike
          (after_sources found (finish R [] (Event.delta (str t) ∷ Event.done true ∷ []) kept))
          (respond R (str t) found true kept)
  cached_str t found (ok u, s) = record {
    same_server = refl;
    told = λ r h. ((str t ∷ [], cc, rw (append-nil t) cc), refl);
    not_hidden = λ e h. cc;
  }
  cached_str t found (raise e', s) = record {
    same_server = refl;
    told = λ r h. cc;
    not_hidden = λ e h. cc;
  }

  cached_text :
      (c : Json) (found : List (SourceChunk Score)) (kept : Kept R)
      → IsAlike
          (after_sources found (finish R [] (Event.delta c ∷ Event.done true ∷ []) kept))
          (respond R c found true kept)
  cached_text (str t) found kept = cached_str t found kept
  cached_text null found kept = cached_bad null _ found kept refl
  cached_text (Json.bool b) found kept = cached_bad (Json.bool b) _ found kept refl
  cached_text (Json.number n) found kept = cached_bad (Json.number n) _ found kept refl
  cached_text (Json.other_number n) found kept = cached_bad (Json.other_number n) _ found kept refl
  cached_text (arr items) found kept = cached_bad (arr items) _ found kept refl
  cached_text (obj fields) found kept = cached_bad (obj fields) _ found kept refl

  module _ (str_of : ℕ → Text) (sha256_hex : Text → Text) (s : Server) (now later : ℕ)
      (q : Query) where
    -- The two ends where the answer is not cached.
    fresh :
        (key : Text) (found : List (SourceChunk Score)) (streamed : List Json × Option Exception)
        (generated : Result Json)
        → IsStreamOf streamed generated
        → IsAlike
            (after_sources found (
              finish R
                (map Event.delta streamed.0)
                (Event.done false ∷ [])
                (after_deltas R s later key q streamed)))
            (elim generated [
              | raise e ↦ (raise e, s)
              | ok j ↦ respond R j found false (keep R s later key q j)
            ])
    fresh key found (parts, none) (ok j) (t, (same, joined)) =
        let kept : after_deltas R s later key q (parts, none) ≡ keep R s later key q (str t) =
          rw (joined, after_deltas) refl in
        rw (same, kept)
          (finish-respond_str t parts found false (keep R s later key q (str t)) joined)
    fresh key found (parts, some e) (raise e') same = record {
      same_server = refl;
      told = λ r h. cc;
      not_hidden = λ e h. cc;
    }
    fresh key found (parts, some e) (ok j) never = absurd never
    fresh key found (parts, none) (raise e) never = absurd never

    -- Where the model's stream comes to the model's answer, `answer_stream` and `answer` leave the
    -- same state of the server, whatever happens; where `answer` returns an answer, the stream
    -- tells exactly that one, its sources first and its end last; and where the stream ends in an
    -- exception, `answer` raises the same one.
    pub answer_stream-IsAlike :
        (worker : Text → ℕ → Json → Text → Result (List (SourceChunk Score)))
        (generate : Text → Result Json) (generate_stream : Text → List Json × Option Exception)
        → ((prompt : Text) → IsStreamOf (generate_stream prompt) (generate prompt))
        → IsAlike
            (answer_stream R str_of sha256_hex s now later worker generate_stream q)
            (answer R str_of sha256_hex s now later worker generate q)
    unfolding answer_stream answer stream_with answer_with
    answer_stream-IsAlike worker generate generate_stream alike =
        let scope = resolve_document_scope R s now q.owner_id q.session_id q.document_ids in
        elim (Result-cases (worker q.question q.top_k scope q.owner_id)) [
          | inr (e, failed) ↦
              rw (failed, answer_stream, answer)
                (record { same_server = refl; told = λ r h. cc; not_hidden = λ e h. cc })
          | inl (found, there) ↦
              let context = context_of str_of found in
              let key = cache_key_of sha256_hex q.owner_id q.question context in
              let cached = or_none (cache_get R cache_prefix s now key) in
              let prompt = build_prompt q.question context in
              elim (Bool-cases (is_some cached)) [
                | inl hit ↦
                    rw (there, answer_stream, answer, hit, stream_with, answer_with)
                      (cached_text cached found (keep_turn R s now q cached))
                | inr miss ↦
                    rw (there, answer_stream, answer, miss, stream_with, answer_with)
                      (fresh key found (generate_stream prompt) (generate prompt) (alike prompt))
              ]
        ]
