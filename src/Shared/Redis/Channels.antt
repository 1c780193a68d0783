-- ===== src/Shared/Redis/Channels.antt =====
-- shared/cache/redis_client.py: the channels of document statuses, `publish_document_status` and
-- `subscribe_document_status`. Redis Pub/Sub is the parameter `PubSub`.
use ai_document_analysis.Prelude.{
  ◌≡◌, refl, ap, ◌∙◌, true, false, ◌⊎◌, inl, inr, Option, none, some, List, [], ◌∷◌, ◌++◌, map,
  filter, Text, codes, ◌==◌, text-Eq, text_eq-append, Bool-cases, arith, if◌then◌else◌,
}
use ai_document_analysis.Shared.Json.{Json}
use ai_document_analysis.Shared.Json.Codec.{Codec}

abbrev pub document_status_channel_prefix : Text
document_status_channel_prefix = codes "document_status:"

-- f"{DOCUMENT_STATUS_CHANNEL_PREFIX}{owner_id}"
abbrev pub channel_of : Text → Text
channel_of owner = document_status_channel_prefix ++ owner

-- What `listen` yields: the type and the data of a message. The data of a confirmation, which is
-- a number, stands as its text; the code does not read it.
pub record Message : Type 0 where
  pub kind : Text
  pub content : Text

-- A channel and the data published on it.
abbrev pub Publication : Type 0
Publication = Text × Text

-- The contents of the messages of the type "message".
abbrev pub contents : List Message → List Text
contents [] = []
contents (m ∷ ms) =
    let rest = contents ms in if m.kind == codes "message" then m.content ∷ rest else rest

abbrev pub published_on : Text → List Publication → List Text
published_on channel ps = map (λ p. p.1) (filter (λ p. p.0 == channel) ps)

-- The payloads of one owner.
abbrev pub payloads_of : Text → List (Text × Json) → List Json
payloads_of owner statuses = map (λ s. s.1) (filter (λ s. s.0 == owner) statuses)

-- `listen` is what a subscriber of a channel is given while clients publish. The law is Redis's
-- documentation: a subscriber gets what is published on its channel, in that order, once each;
-- messages of other types, such as confirmations, may stand between.
pub record PubSub : Type 0 where
  pub listen : Text → List Publication → List Message
  pub contents-listen :
      (channel : Text) (ps : List Publication)
      → contents (listen channel ps) ≡ published_on channel ps

-- What one message of the subscription comes to in the body of the loop.
pub data Update : Type 0 where
  skipped : Update
  yielded : Json → Update
  raised : Update

module _ (C : Codec) where
  -- `down` is the text of the exception of the Redis client, if it raises one.
  unfoldable pub publish_document_status :
      Option Text → Text → Json → List Publication → Text ⊎ List Publication
  publish_document_status (some e) owner payload ps = inl e
  publish_document_status none owner payload ps =
      inr (ps ++ (channel_of owner, C.dumps payload) ∷ [])

  unfoldable pub update_of : Message → Update
  update_of m =
      let decoded : Update = elim (C.loads m.content) [ none ↦ raised | some j ↦ yielded j ] in
      if m.kind == codes "message" then decoded else skipped

  -- `subscribe_document_status`: what the generator yields for the messages of its channel; it
  -- ends at data that is not JSON.
  unfoldable pub subscribe_document_status : List Message → List Json
  subscribe_document_status [] = []
  subscribe_document_status (m ∷ ms) =
      let rest = subscribe_document_status ms in
      elim (update_of m) [ skipped ↦ rest | yielded j ↦ j ∷ rest | raised ↦ [] ]

  -- What Redis is sent for statuses of owners, while it can be reached.
  abbrev pub publications : List (Text × Json) → List Publication
  publications [] = []
  publications ((owner, payload) ∷ statuses) =
      (channel_of owner, C.dumps payload) ∷ publications statuses

  pub published_on-publications :
      (owner : Text) (statuses : List (Text × Json))
      → published_on (channel_of owner) (publications statuses)
        ≡ map C.dumps (payloads_of owner statuses)
  published_on-publications owner [] = refl
  published_on-publications owner ((o, payload) ∷ statuses) = ground (
    arith,
    text_eq-append document_status_channel_prefix o owner,
    published_on-publications owner statuses,
  )

  pub update_of-dumps :
      (m : Message) (j : Json)
      → (m.kind == codes "message") ≡ true
      → m.content ≡ C.dumps j
      → update_of m ≡ yielded j
  unfolding update_of
  update_of-dumps m j told e = rw (told, e, C.loads-dumps j) refl

  pub update_of_other : (m : Message) → (m.kind == codes "message") ≡ false → update_of m ≡ skipped
  unfolding update_of
  update_of_other m other = rw other refl

  subscribe-yielded :
      (m : Message) (ms : List Message) (j : Json)
      → update_of m ≡ yielded j
      → subscribe_document_status (m ∷ ms) ≡ j ∷ subscribe_document_status ms
  unfolding subscribe_document_status
  subscribe-yielded m ms j e = rw (e, subscribe_document_status) refl

  subscribe-skipped :
      (m : Message) (ms : List Message)
      → update_of m ≡ skipped
      → subscribe_document_status (m ∷ ms) ≡ subscribe_document_status ms
  unfolding subscribe_document_status
  subscribe-skipped m ms e = rw (e, subscribe_document_status) refl

  -- Data that was dumped is yielded, and messages of other types are passed over.
  subscribe-dumps :
      (ms : List Message) (js : List Json)
      → contents ms ≡ map C.dumps js
      → subscribe_document_status ms ≡ js
  unfolding subscribe_document_status
  subscribe-dumps [] [] e = refl
  subscribe-dumps [] (j ∷ js) e = cc
  subscribe-dumps (m ∷ ms) [] e = elim (Bool-cases (m.kind == codes "message")) [
    | inr other ↦
        subscribe-skipped m ms (update_of_other m other) ∙ subscribe-dumps ms [] (rw other at e)
    | inl told ↦ let e' : m.content ∷ contents ms ≡ map C.dumps [] = rw told at e in cc
  ]
  subscribe-dumps (m ∷ ms) (j ∷ js) e = elim (Bool-cases (m.kind == codes "message")) [
    | inr other ↦
        subscribe-skipped m ms (update_of_other m other)
        ∙ subscribe-dumps ms (j ∷ js) (rw other at e)
    | inl told ↦
        let e' : m.content ∷ contents ms ≡ map C.dumps (j ∷ js) = rw told at e in
        subscribe-yielded m ms j (update_of-dumps m j told cc)
        ∙ ap (◌∷◌ j) (subscribe-dumps ms js cc)
  ]

  -- Whoever else is published to meanwhile, the subscription of an owner yields exactly the
  -- payloads that were published for this owner, in their order.
  pub subscribe-publications :
      (P : PubSub) (owner : Text) (statuses : List (Text × Json))
      → subscribe_document_status (P.listen (channel_of owner) (publications statuses))
        ≡ payloads_of owner statuses
  subscribe-publications P owner statuses = subscribe-dumps _ _ (
      P.contents-listen (channel_of owner) (publications statuses)
      ∙ published_on-publications owner statuses)
