-- ===== src/ChatService/RagService/Sessions.antt =====
-- The history and the document scope of a session: what is written is read back, and nothing of
-- another session or of another user.
use ai_document_analysis.Prelude.{
  until_separator, ℕ, ◌+◌, ◌*◌, ◌≡◌, ◌≢◌, ◌≤◌, ◌<◌, refl, sym, ap, ◌∙◌, inl, inr, ◌⊎◌, true, false,
  none, some, List, [], ◌∷◌, ◌++◌, Text, text_eq, text_eq_iff, text_eq-append, codes, length, All,
  ltb, arith, if◌then◌else◌,
}
use ai_document_analysis.Shared.Exceptions.{ok}
use ai_document_analysis.Shared.Json.{Json, arr, items_of, list_of-items_of}
use ai_document_analysis.Shared.Redis.{session_prefix, cache_get, cache_set}
use ai_document_analysis.Shared.Redis.Server.{Redis}
use ai_document_analysis.ChatService.RagService.{
  docs_key, history_key, or_empty, texts_json, turn, session_ttl_seconds, get_history,
  append_history, get_session_documents, set_session_documents, resolve_document_scope,
}

-- An owner's id is a UUID: 36 characters, none of them a colon.
pub record IsUuid (owner : Text) : Type 0 where
  pub no_colon : All (λ c. c ≢ 58) owner
  pub length_36 : length owner ≡ 36

pub text_eq-false : (s t : Text) → s ≢ t → text_eq s t ≡ false
text_eq-false s t h = ground (arith, text_eq_iff s t, h)

-- Another session, or one of another owner.
abbrev pub IsOther : Text → Text → Text → Text → Type 0
IsOther owner sid other sid' = (owner ≢ other) ⊎ (sid ≢ sid')

history_key_other :
    (owner sid other sid' : Text)
    → IsUuid owner
    → IsUuid other
    → IsOther owner sid other sid'
    → text_eq (history_key owner sid) (history_key other sid') ≡ false
history_key_other owner sid other sid' ho hp apart =
    text_eq-false (history_key owner sid) (history_key other sid') (λ e.
      let (same, rest) = until_separator 58 owner other sid sid' ho.no_colon hp.no_colon e in
      elim apart [ inl h ↦ h same | inr h ↦ h rest ])

docs_key_other :
    (owner sid other sid' : Text)
    → IsUuid owner
    → IsUuid other
    → IsOther owner sid other sid'
    → text_eq (docs_key owner sid) (docs_key other sid') ≡ false
docs_key_other owner sid other sid' ho hp apart =
    text_eq-append (codes "docs:") (history_key owner sid) (history_key other sid')
    ∙ history_key_other owner sid other sid' ho hp apart

-- The two kinds of key never meet: no owner is called docs.
docs_key-history_key :
    (owner sid other sid' : Text) → IsUuid other → docs_key owner sid ≢ history_key other sid'
docs_key-history_key owner sid other sid' h e =
    let docs : All (λ c. c ≢ 58) (codes "docs") =
      (λ e. omega arith, (λ e. omega arith, (λ e. omega arith, (λ e. omega arith, tt)))) in
    let (same, rest) =
      until_separator 58 (codes "docs") other (history_key owner sid) sid' docs h.no_colon e in
    let four : 4 ≡ length other = ap (λ t. length t) same in
    let many : length other ≡ 36 = h.length_36 in omega arith

module _ (R : Redis) where
  open R use {Server, get-set}

  -- What a cache client reads after it has written.
  pub cache_get-cache_set :
      (prefix : Text) (s : Server) (now t ttl : ℕ) (k j : Text) (v : Json)
      → now ≤ t
      → 0 < ttl
      → cache_get R prefix (cache_set R prefix s now k v ttl) t j ≡ (
          if text_eq k j
          then if ltb t (now + ttl * 1000) then some v else none
          else cache_get R prefix s t j)
  unfolding cache_get cache_set
  cache_get-cache_set prefix s now t ttl k j v later positive =
      get-set s now t ttl (prefix ++ k) (prefix ++ j) v later positive
      ∙ ap
          (λ b.
            if b
            then if ltb t (now + ttl * 1000) then some v else none
            else cache_get R prefix s t j)
          (text_eq-append prefix k j)

  pub cache_get_fresh :
      (prefix : Text) (s : Server) (now t ttl : ℕ) (k : Text) (v : Json)
      → now ≤ t
      → t < now + ttl * 1000
      → cache_get R prefix (cache_set R prefix s now k v ttl) t k ≡ some v
  cache_get_fresh prefix s now t ttl k v later soon =
      let positive : 0 < ttl = omega arith in
      let same : text_eq k k ≡ true = ground (arith, text_eq_iff k k) in
      let before : ltb t (now + ttl * 1000) ≡ true = ground arith in
      cache_get-cache_set prefix s now t ttl k k v later positive ∙ rw (same, before) refl

  pub cache_get_other :
      (prefix : Text) (s : Server) (now t ttl : ℕ) (k j : Text) (v : Json)
      → now ≤ t
      → 0 < ttl
      → text_eq k j ≡ false
      → cache_get R prefix (cache_set R prefix s now k v ttl) t j ≡ cache_get R prefix s t j
  cache_get_other prefix s now t ttl k j v later positive apart =
      cache_get-cache_set prefix s now t ttl k j v later positive ∙ rw apart refl

  turns_truthy :
      (turns : List Json) (j : Json)
      → or_empty (arr (items_of (turns ++ j ∷ []))) ≡ arr (items_of (turns ++ j ∷ []))
  turns_truthy [] j = refl
  turns_truthy (t ∷ turns) j = refl

  -- Appending a turn to a session whose history holds some turns succeeds; until the session
  -- expires its history then reads as these turns and the new one, the history of every other
  -- session, of this user or of another, reads as before, and so does every document scope.
  pub append_history-IsAppended :
      (s : Server) (now t : ℕ) (owner sid question : Text) (answer : Json) (turns : List Json)
      → IsUuid owner
      → now ≤ t
      → t < now + 86400000
      → get_history R s now owner sid ≡ arr (items_of turns)
      → (s' : Server) × (append_history R s now owner sid question answer ≡ ok s')
        × (get_history R s' t owner sid ≡ arr (items_of (turns ++ turn question answer ∷ [])))
        × ((other sid' : Text)
            → IsUuid other
            → (IsOther owner sid other sid'
                → get_history R s' t other sid' ≡ get_history R s t other sid')
              × (get_session_documents R s' t other sid' ≡ get_session_documents R s t other sid'))
  unfolding get_history append_history get_session_documents
  append_history-IsAppended s now t owner sid question answer turns ho later soon there =
      let j = arr (items_of (turns ++ turn question answer ∷ [])) in
      let key = history_key owner sid in
      (
        cache_set R session_prefix s now key j session_ttl_seconds,
        rw (there, list_of-items_of turns) refl,
        rw (cache_get_fresh session_prefix s now t session_ttl_seconds key j later soon)
            (turns_truthy turns (turn question answer)),
        λ other sid' hp. (
          λ apart.
              rw
                (cache_get_other session_prefix s now t session_ttl_seconds key
                  (history_key other sid') j later (omega arith)
                  (history_key_other owner sid other sid' ho hp apart))
                refl,
          rw
              (cache_get_other session_prefix s now t session_ttl_seconds key (docs_key other sid')
                j later (omega arith)
                (text_eq-false key (docs_key other sid')
                  (λ e. docs_key-history_key other sid' owner sid ho (sym e))))
              refl,
        ),
      )

  -- The documents set for a session are its scope until it expires, where a question names none of
  -- its own; the scope of every other session reads as before, and so does every history.
  pub set_session_documents-IsScoped :
      (s : Server) (now t : ℕ) (owner sid : Text) (ids : List Text)
      → IsUuid owner
      → now ≤ t
      → t < now + 86400000
      → let s' = set_session_documents R s now owner sid ids in
        (resolve_document_scope R s' t owner sid none ≡ texts_json ids)
        × ((other sid' : Text)
            → IsUuid other
            → (IsOther owner sid other sid'
                → resolve_document_scope R s' t other sid' none
                  ≡ resolve_document_scope R s t other sid' none)
              × (get_history R s' t other sid' ≡ get_history R s t other sid'))
  unfolding get_history set_session_documents get_session_documents resolve_document_scope
  set_session_documents-IsScoped s now t owner sid ids ho later soon =
      let key = docs_key owner sid in
      (
        rw
            (cache_get_fresh session_prefix s now t session_ttl_seconds key (texts_json ids) later
              soon)
            refl,
        λ other sid' hp. (
          λ apart.
              rw
                (cache_get_other session_prefix s now t session_ttl_seconds key
                  (docs_key other sid') (texts_json ids) later (omega arith)
                  (docs_key_other owner sid other sid' ho hp apart))
                refl,
          rw
              (cache_get_other session_prefix s now t session_ttl_seconds key
                (history_key other sid') (texts_json ids) later (omega arith)
                (text_eq-false key (history_key other sid')
                  (docs_key-history_key owner sid other sid' hp)))
              refl,
        ),
      )
