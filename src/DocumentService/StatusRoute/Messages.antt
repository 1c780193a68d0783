-- ===== src/DocumentService/StatusRoute/Messages.antt =====
-- What the socket of a user is sent of the statuses that the workers publish.
use ai_document_analysis.Prelude.{
  IsPrefix, ℕ, ◌≡◌, refl, sym, ap, ◌∙◌, Bool, true, false, Option, List, [], ◌∷◌, ◌++◌, Text, All,
}
use ai_document_analysis.Shared.Exceptions.{ok}
use ai_document_analysis.Shared.Json.{Json}
use ai_document_analysis.Shared.Json.Codec.{Codec}
use ai_document_analysis.Shared.Redis.Channels.{
  Message, Update, skipped, yielded, raised, PubSub, channel_of, update_of, publications,
  payloads_of, subscribe_document_status, subscribe-publications,
}
use ai_document_analysis.Shared.Jwt.Tokens.{Jose}
use ai_document_analysis.Shared.Oauth.{CurrentUser}
use ai_document_analysis.DocumentService.WsManager.{Connections}
use ai_document_analysis.DocumentService.WsManager.Runs.{Call}
use ai_document_analysis.DocumentService.StatusRoute.{
  Event, arrives, says, served, forward, serve, document_status_ws,
}
use ai_document_analysis.DocumentService.StatusRoute.Sessions.{document_status_ws-served}

-- The messages that arrive at a socket.
abbrev pub arrived : List Event → List Message
arrived [] = []
arrived (arrives message delivers ∷ events) = message ∷ arrived events
arrived (says text ∷ events) = arrived events

-- `send_json` returns for every message.
abbrev pub Delivers : Event → Type 0
Delivers (arrives message delivers) = delivers ≡ true
Delivers (says text) = Unit

module _ (C : Codec) where
  -- One message, as the generator yields it and as the session forwards it.
  forward_lem :
      (u : Update) (delivers : Bool) (sent all : List Json)
      → IsPrefix sent all
      → let told : List Json = elim u [ skipped ↦ all | yielded j ↦ j ∷ all | raised ↦ [] ] in
        IsPrefix (forward u delivers sent) told
        × (delivers ≡ true → sent ≡ all → forward u delivers sent ≡ told)
  forward_lem skipped delivers sent all h = (h, λ d e. e)
  forward_lem (yielded j) true sent all (rest, e) =
      ((rest, ap (◌∷◌ j) e), λ d same. ap (◌∷◌ j) same)
  forward_lem (yielded j) false sent all h = ((j ∷ all, refl), λ d. cc d)
  forward_lem raised delivers sent all h = (([], refl), λ d same. refl)

  serve_lem :
      (events : List Event)
      → let told = subscribe_document_status C (arrived events) in
        IsPrefix (serve C events) told × (All Delivers events → serve C events ≡ told)
  unfolding serve subscribe_document_status
  serve_lem [] = (([], refl), λ h. refl)
  serve_lem (says text ∷ events) = let (part, whole) = serve_lem events in (part, λ h. whole h.1)
  serve_lem (arrives message delivers ∷ events) =
      let (part, whole) = serve_lem events in
      let (part', whole') = forward_lem (update_of C message) delivers _ _ part in
      (part', λ h. whole' h.0 (whole h.1))

  -- A user who is served while statuses of any owners are published is sent a part of the payloads
  -- for this user, from the first one on, in their order and none twice, and nothing else; if every
  -- `send_json` returns, all of them.
  pub document_status_ws-told :
      (J : Jose) (is_uuid : Text → Bool) (P : PubSub) (statuses : List (Text × Json)) (now : ℕ)
      (token : Option Text) (ws : ℕ) (happens : Text → List Event) (others : List Call)
      (m : Connections) (user : CurrentUser) (sent : List Json)
      → ((owner : Text)
          → arrived (happens (channel_of owner))
            ≡ P.listen (channel_of owner) (publications C statuses))
      → (document_status_ws C J is_uuid now token ws happens others m).0 ≡ ok (served user sent)
      → IsPrefix sent (payloads_of user.id statuses)
        × (All Delivers (happens (channel_of user.id)) → sent ≡ payloads_of user.id statuses)
  document_status_ws-told J is_uuid P statuses now token ws happens others m user sent fed h =
      let (t, e, resolved, told) =
        document_status_ws-served C J is_uuid now ws happens others m token user sent h in
      let (part, whole) = serve_lem (happens (channel_of user.id)) in
      let all : subscribe_document_status C (arrived (happens (channel_of user.id)))
          ≡ payloads_of user.id statuses =
        ap (subscribe_document_status C) (fed user.id)
        ∙ subscribe-publications C P user.id statuses in
      ((part.0, sym all ∙ part.1 ∙ ap (λ js. js ++ part.0) (sym told)), λ d. told ∙ whole d ∙ all)
