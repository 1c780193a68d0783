-- ===== src/Gateway/WsProxy/Through.antt =====
-- The statuses of a user's documents, from the worker's publication to the browser.
use ai_document_analysis.Prelude.{
  ℕ, ◌≡◌, refl, ap, ◌∙◌, Bool, true, false, some, List, ◌++◌, codes, contains, map, Text, All,
  IsPrefix, IsPrefix-trans, IsPrefix-map, subst, sym,
}
use ai_document_analysis.Shared.Exceptions.{ok}
use ai_document_analysis.Shared.Json.{Json}
use ai_document_analysis.Shared.Json.Codec.{Codec}
use ai_document_analysis.Shared.Redis.Channels.{PubSub, channel_of, publications, payloads_of}
use ai_document_analysis.Shared.Jwt.Tokens.{Jose}
use ai_document_analysis.Shared.Oauth.{CurrentUser}
use ai_document_analysis.DocumentService.WsManager.{Connections}
use ai_document_analysis.DocumentService.WsManager.Runs.{Call}
use ai_document_analysis.DocumentService.StatusRoute.{served, document_status_ws}
use ai_document_analysis.DocumentService.StatusRoute.{Event as SocketEvent}
use ai_document_analysis.DocumentService.StatusRoute.Messages.{
  arrived, Delivers, document_status_ws-told,
}
use ai_document_analysis.Gateway.WsProxy.{Event, relay, upstream_ws_url, proxy_documents_ws}
use ai_document_analysis.Gateway.WsProxy.Relay.{
  upstream_texts, IsTaken, relay_lem, path, upstream_ws_url_lem,
}

proxy_documents_ws-relay :
    (document_service_url token : Text) (connects : Text → Bool) (events : Text → List Event)
    → let url = upstream_ws_url document_service_url token in
      connects url ≡ true
      → (proxy_documents_ws document_service_url connects events (some token)).1
        ≡ relay (events url)
unfolding proxy_documents_ws
proxy_documents_ws-relay document_service_url token connects events e = rw e refl

module _ (C : Codec) (J : Jose) (is_uuid : Text → Bool) (P : PubSub) (encode : Json → Text) where
  told_at :
      (statuses : List (Text × Json)) (now : ℕ) (token : Text) (ws : ℕ)
      (happens : Text → List SocketEvent) (others : List Call) (m : Connections)
      (user : CurrentUser) (sent : List Json) (document_service_url : Text) (connects : Text → Bool)
      (events : Text → List Event)
      → let url = upstream_ws_url document_service_url token in
        let browser =
          (proxy_documents_ws document_service_url connects events (some token)).1.to_browser in
        let own = map encode (payloads_of user.id statuses) in
        ((owner : Text)
          → arrived (happens (channel_of owner))
            ≡ P.listen (channel_of owner) (publications C statuses))
        → (document_status_ws C J is_uuid now (some token) ws happens others m).0
          ≡ ok (served user sent)
        → connects url ≡ true
        → upstream_texts (events url) ≡ map encode sent
        → IsPrefix browser own
          × (All Delivers (happens (channel_of user.id)) → All IsTaken (events url) → browser ≡ own)
  told_at statuses now token ws happens others m user sent document_service_url connects events fed
        served_user connected passed =
      let url = upstream_ws_url document_service_url token in
      let relayed =
        ap (λ r. r.to_browser)
          (proxy_documents_ws-relay document_service_url token connects events connected) in
      let (part, whole) =
        document_status_ws-told C J is_uuid P statuses now (some token) ws happens others m user
          sent fed served_user in
      let (to_browser, to_upstream, all) = relay_lem (events url) in
      (
        subst (λ b. IsPrefix b (map encode (payloads_of user.id statuses))) (sym relayed)
            (IsPrefix-trans _ _ _
              (subst (IsPrefix (relay (events url)).to_browser) passed to_browser)
              (IsPrefix-map encode sent (payloads_of user.id statuses) part)),
        λ d taken. relayed ∙ (all taken).0 ∙ passed ∙ ap (map encode) (whole d),
      )

  -- Behind the gateway, with document-service at http:// and a host without a second scheme in it:
  -- where the route of document-service, at ws://, that host and its path with a token, serves the
  -- user of this token, whom the route finds by it, the browser that opens the gateway's socket with
  -- the token is sent, of the statuses that are published meanwhile, a part of those of this user,
  -- from the first one on, in their order, and nothing else; if every text is taken on its way, all
  -- of them.
  pub browser_told :
      (statuses : List (Text × Json)) (now : ℕ) (token : Text) (ws : ℕ)
      (happens : Text → List SocketEvent) (others : List Call) (m : Connections)
      (user : CurrentUser) (sent : List Json) (host : Text) (connects : Text → Bool)
      (events : Text → List Event)
      → let route_url = codes "ws://" ++ (host ++ path token) in
        let browser =
          (proxy_documents_ws
            (codes "http://" ++ host)
            connects
            events
            (some token)).1.to_browser in
        let own = map encode (payloads_of user.id statuses) in
        contains (codes "http://") host ≡ false
        → contains (codes "https://") host ≡ false
        → ((owner : Text)
            → arrived (happens (channel_of owner))
              ≡ P.listen (channel_of owner) (publications C statuses))
        → (document_status_ws C J is_uuid now (some token) ws happens others m).0
          ≡ ok (served user sent)
        → connects route_url ≡ true
        → upstream_texts (events route_url) ≡ map encode sent
        → IsPrefix browser own
          × (All Delivers (happens (channel_of user.id))
              → All IsTaken (events route_url)
              → browser ≡ own)
  browser_told statuses now token ws happens others m user sent host connects events plain secure
        fed served_user connected passed =
      let url = upstream_ws_url (codes "http://" ++ host) token in
      let same : url ≡ codes "ws://" ++ (host ++ path token) =
        (upstream_ws_url_lem host token plain secure).0 in
      let (part, whole) =
        told_at statuses now token ws happens others m user sent (codes "http://" ++ host) connects
          events fed served_user (ap connects same ∙ connected)
          (ap (λ u. upstream_texts (events u)) same ∙ passed) in
      (part, λ d taken. whole d (subst (λ u. All IsTaken (events u)) (sym same) taken))
