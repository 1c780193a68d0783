-- ===== src/Shared/Redis/Subscriber.antt =====
-- An instance of `PubSub`: a subscriber gets a confirmation and then what is published.
use ai_document_analysis.Prelude.{◌≡◌, refl, ap, List, [], ◌∷◌, map, Text, codes, text_eq}
use ai_document_analysis.Shared.Redis.Channels.{
  Message, Publication, PubSub, contents, published_on,
}

told : Text → Message
told t = record { kind = codes "message"; content = t }

contents-told : (ts : List Text) → contents (map told ts) ≡ ts
unfolding told text_eq
contents-told [] = refl
contents-told (t ∷ ts) = ap (◌∷◌ t) (contents-told ts)

listen : Text → List Publication → List Message
unfolding told
listen channel ps =
    record { kind = codes "subscribe"; content = codes "1" } ∷ map told (published_on channel ps)

contents-listen :
    (channel : Text) (ps : List Publication)
    → contents (listen channel ps) ≡ published_on channel ps
unfolding listen text_eq
contents-listen channel ps = contents-told (published_on channel ps)

pub subscriber : PubSub
subscriber = record { listen = listen; contents-listen = contents-listen }
