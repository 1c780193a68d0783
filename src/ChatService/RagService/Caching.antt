-- ===== src/ChatService/RagService/Caching.antt =====
-- The cached answers: what a repeated question is answered, and whose answers a user is given.
use mathlib.Core.List.{append_assoc}
use ai_document_analysis.Prelude.{
  until_separator, ℕ, ◌+◌, ◌≡◌, ◌≢◌, ◌≤◌, ◌<◌, refl, sym, ◌∙◌, true, false, some, List, [], ◌∷◌,
  ◌++◌, Text, text_eq, codes, arith,
}
use ai_document_analysis.Shared.Exceptions.{Result, ok}
use ai_document_analysis.Shared.Json.{Json, str, arr, items_of, list_of-items_of}
use ai_document_analysis.Shared.Redis.{cache_prefix, session_prefix, cache_get, cache_set}
use ai_document_analysis.Shared.Redis.Server.{Redis}
use ai_document_analysis.ChatService.LlmClient.{prompt_cache_key}
use ai_document_analysis.ChatService.RagService.{
  SourceChunk, history_key, or_none, turn, get_history, append_history, response_cache_ttl_seconds,
  session_ttl_seconds,
}
use ai_document_analysis.ChatService.RagService.Sessions.{
  IsUuid, text_eq-false, cache_get_fresh, cache_get_other, append_history-IsAppended,
}
use ai_document_analysis.ChatService.RagService.Answering.{
  Query, is_some, build_prompt, cache_key_of, context_of, keep_turn, keep, answer_with,
}

assoc₃ :
    (owner question context : Text)
    → (owner ++ (codes ":" ++ question)) ++ codes "|" ++ context
      ≡ owner ++ 58 ∷ ((question ++ codes "|") ++ context)
assoc₃ owner question context = simp append_assoc

-- Where the hash tells the two texts apart, the keys of two users' answers differ.
cache_key_of_other :
    (sha256_hex : Text → Text)
    → (owner other question question' context context' : Text)
    → (let x = (owner ++ (codes ":" ++ question)) ++ codes "|" ++ context in
        let y = (other ++ (codes ":" ++ question')) ++ codes "|" ++ context' in
        sha256_hex x ≡ sha256_hex y → x ≡ y)
    → IsUuid owner
    → IsUuid other
    → owner ≢ other
    → cache_key_of sha256_hex owner question context
      ≢ cache_key_of sha256_hex other question' context'
unfolding prompt_cache_key
cache_key_of_other sha256_hex owner other question question' context context' distinct ho hp apart
      e =
    let same : sha256_hex ((owner ++ (codes ":" ++ question)) ++ codes "|" ++ context)
        ≡ sha256_hex ((other ++ (codes ":" ++ question')) ++ codes "|" ++ context') =
      cc in
    let texts = distinct same in
    apart
      (until_separator 58 owner other ((question ++ codes "|") ++ context)
        ((question' ++ codes "|") ++ context') ho.no_colon hp.no_colon
        (sym (assoc₃ owner question context) ∙ texts ∙ assoc₃ other question' context')).0

module _ (R : Redis) where
  open R use {Server, get-set}

  -- The cache and the sessions do not meet.
  cache_get_after_session :
      (s : Server) (now t ttl : ℕ) (k j : Text) (v : Json)
      → now ≤ t
      → 0 < ttl
      → cache_get R cache_prefix (cache_set R session_prefix s now k v ttl) t j
        ≡ cache_get R cache_prefix s t j
  unfolding cache_get cache_set text_eq
  cache_get_after_session s now t ttl k j v later positive =
      get-set s now t ttl (session_prefix ++ k) (cache_prefix ++ j) v later positive

  session_get_after_cache :
      (s : Server) (now t ttl : ℕ) (k j : Text) (v : Json)
      → now ≤ t
      → 0 < ttl
      → cache_get R session_prefix (cache_set R cache_prefix s now k v ttl) t j
        ≡ cache_get R session_prefix s t j
  unfolding cache_get cache_set text_eq
  session_get_after_cache s now t ttl k j v later positive =
      get-set s now t ttl (cache_prefix ++ k) (session_prefix ++ j) v later positive

  append_history_cache :
      (s s' : Server) (now t : ℕ) (owner sid question : Text) (answer : Json) (turns : List Json)
      (j : Text)
      → now ≤ t
      → get_history R s now owner sid ≡ arr (items_of turns)
      → append_history R s now owner sid question answer ≡ ok s'
      → cache_get R cache_prefix s' t j ≡ cache_get R cache_prefix s t j
  unfolding get_history append_history
  append_history_cache s s' now t owner sid question answer turns j later there kept =
      let h = arr (items_of (turns ++ turn question answer ∷ [])) in
      let set : append_history R s now owner sid question answer
          ≡ ok (cache_set R session_prefix s now (history_key owner sid) h session_ttl_seconds) =
        rw (there, list_of-items_of turns) refl in
      let same : s'
          ≡ cache_set R session_prefix s now (history_key owner sid) h session_ttl_seconds =
        cc in
      rw same (
        cache_get_after_session s now t session_ttl_seconds (history_key owner sid) j h later
          (omega arith))

  get_history_after_cache :
      (s : Server) (now : ℕ) (k owner sid : Text) (v : Json)
      → get_history R (cache_set R cache_prefix s now k v response_cache_ttl_seconds) now owner sid
        ≡ get_history R s now owner sid
  unfolding get_history
  get_history_after_cache s now k owner sid v =
      rw
        (session_get_after_cache s now now response_cache_ttl_seconds k (history_key owner sid) v
          (omega arith) (omega arith))
        refl

  keep_turn_ok :
      (s s' : Server) (now : ℕ) (q : Query) (answer : Json)
      → append_history R s now q.owner_id q.session_id q.question answer ≡ ok s'
      → keep_turn R s now q answer ≡ (ok tt, s')
  keep_turn_ok s s' now q answer kept = rw (kept, keep_turn) refl

  -- Keeping a new answer succeeds, and what follows finds it in the cache.
  keep_ok :
      (s : Server) (now : ℕ) (key : Text) (q : Query) (answer : Json) (turns : List Json)
      → IsUuid q.owner_id
      → get_history R s now q.owner_id q.session_id ≡ arr (items_of turns)
      → (s' : Server) × (keep R s now key q answer ≡ (ok tt, s'))
        × ((t : ℕ) (j : Text)
            → now ≤ t
            → cache_get R cache_prefix s' t j
              ≡ cache_get R cache_prefix
                  (cache_set R cache_prefix s now key answer response_cache_ttl_seconds)
                  t
                  j)
  keep_ok s now key q answer turns ho there =
      let s1 = cache_set R cache_prefix s now key answer response_cache_ttl_seconds in
      let there' = get_history_after_cache s now key q.owner_id q.session_id answer ∙ there in
      let (s', kept, history, others) =
        append_history-IsAppended R s1 now now q.owner_id q.session_id q.question answer turns ho
          (omega arith) (omega arith) there' in
      (
        s',
        keep_turn_ok s1 s' now q answer kept,
        λ t j later.
            append_history_cache s1 s' now t q.owner_id q.session_id q.question answer turns j later
              there' kept,
      )

  module _ {Score : Type 0} (str_of : ℕ → Text) (sha256_hex : Text → Text)
      (found : List (SourceChunk Score)) where
    hit_ok :
        (s : Server) (now later : ℕ) (generate : Text → Result Json) (q : Query) (turns : List Json)
        (t : Text)
        → IsUuid q.owner_id
        → get_history R s now q.owner_id q.session_id ≡ arr (items_of turns)
        → cache_get R cache_prefix s now
            (cache_key_of sha256_hex q.owner_id q.question (context_of str_of found))
          ≡ some (str t)
        → (answer_with R str_of sha256_hex s now later generate q found).0
          ≡ ok (record { answer = t; sources = found; cached = true })
    unfolding answer_with
    hit_ok s now later generate q turns t ho there hit =
        let (s', kept, history, others) =
          append_history-IsAppended R s now now q.owner_id q.session_id q.question (str t) turns ho
            (omega arith) (omega arith) there in
        rw (hit, keep_turn_ok s s' now q (str t) kept) refl

    -- A question that is not cached and that the model answers is answered with the model's text.
    -- For an hour the same question of the same user with the same excerpts, in whichever session,
    -- is then answered with that text from the cache, whatever the model would say. What another
    -- user is given from the cache is what it was before, unless the hash gives the two texts that
    -- it is applied to, of the user, the question and the excerpts, one value although they differ.
    pub answer_with-IsCached :
        (s : Server) (now later : ℕ) (generate : Text → Result Json) (q : Query) (turns : List Json)
        (t : Text)
        → IsUuid q.owner_id
        → get_history R s later q.owner_id q.session_id ≡ arr (items_of turns)
        → is_some (
            or_none (
              cache_get R cache_prefix s now
                (cache_key_of sha256_hex q.owner_id q.question (context_of str_of found))))
          ≡ false
        → generate (build_prompt q.question (context_of str_of found)) ≡ ok (str t)
        → (s' : Server) × (answer_with R str_of sha256_hex s now later generate q found
            ≡ (ok (record { answer = t; sources = found; cached = false }), s'))
          × ((now' later' : ℕ) (generate' : Text → Result Json) (q' : Query) (turns' : List Json)
              → later ≤ now'
              → now' < later + 3600000
              → q'.owner_id ≡ q.owner_id
              → q'.question ≡ q.question
              → get_history R s' now' q'.owner_id q'.session_id ≡ arr (items_of turns')
              → (answer_with R str_of sha256_hex s' now' later' generate' q' found).0
                ≡ ok (record { answer = t; sources = found; cached = true }))
          × ((now' : ℕ) (other question' context' : Text)
              → later ≤ now'
              → IsUuid other
              → q.owner_id ≢ other
              → (let x =
                    (q.owner_id ++ (codes ":" ++ q.question))
                    ++ codes "|"
                    ++ context_of str_of found in
                  let y = (other ++ (codes ":" ++ question')) ++ codes "|" ++ context' in
                  sha256_hex x ≡ sha256_hex y → x ≡ y)
              → cache_get R cache_prefix s' now' (cache_key_of sha256_hex other question' context')
                ≡ cache_get R cache_prefix s now'
                    (cache_key_of sha256_hex other question' context'))
    unfolding answer_with
    answer_with-IsCached s now later generate q turns t ho there miss said =
        let context = context_of str_of found in
        let key = cache_key_of sha256_hex q.owner_id q.question context in
        let (s', kept, reads) = keep_ok s later key q (str t) turns ho there in
        (
          s',
          rw (answer_with, miss, said, kept) refl,
          λ now' later' generate' q' turns' after soon owner question there'.
              hit_ok s' now' later' generate' q' turns' t (rw owner ho) there' (
                rw (owner, question)
                  (reads now' key after
                    ∙ cache_get_fresh R cache_prefix s later now' response_cache_ttl_seconds key
                        (str t) after soon)),
          λ now' other question' context' after hp apart distinct.
              let key' = cache_key_of sha256_hex other question' context' in
              reads now' key' after
              ∙ cache_get_other R cache_prefix s later now' response_cache_ttl_seconds key key'
                  (str t) after (omega arith)
                  (text_eq-false key key' (
                    cache_key_of_other sha256_hex q.owner_id other q.question question' context
                      context' distinct ho hp apart)),
        )
