-- ===== src/Gateway/WsProxy/Tests.antt =====
-- Ada's browser is told of her documents through the gateway.
use ai_document_analysis.Prelude.{
  ◌≡◌, refl, ap, true, some, List, [], ◌∷◌, ◌++◌, map, Text, codes, All, IsPrefix, contains,
}
use ai_document_analysis.Shared.Json.Postfix.{postfix}
use ai_document_analysis.Shared.Jwt.Plain.{plain}
use ai_document_analysis.Shared.Redis.Channels.{channel_of}
use ai_document_analysis.Shared.Redis.Subscriber.{subscriber}
use ai_document_analysis.DocumentService.StatusRoute.{serve}
use ai_document_analysis.DocumentService.StatusRoute.Messages.{Delivers}
use ai_document_analysis.DocumentService.StatusRoute.Sample.{
  ada, access_token, tabs, others, statuses, happens, arrived_all, user, hers, served_user,
}
use ai_document_analysis.Gateway.WsProxy.{Event, from_upstream, upstream_ws_url, proxy_documents_ws}
use ai_document_analysis.Gateway.WsProxy.Relay.{upstream_texts, IsTaken, path, upstream_ws_url_lem}
use ai_document_analysis.Gateway.WsProxy.Through.{browser_told}

abbrev host : Text
host = codes "localhost:8002"

abbrev service_url : Text
service_url = codes "http://" ++ host

service_ws_url :
    upstream_ws_url service_url (codes "t")
    ≡ codes "ws://localhost:8002/api/v1/documents/ws?token=t"
unfolding contains
service_ws_url = (upstream_ws_url_lem (codes "localhost:8002") (codes "t") refl refl).0

-- What document-service sends, as the gateway gets it.
abbrev events : Text → List Event
events url =
    map (λ t. from_upstream t true) (map postfix.dumps (serve postfix (happens (channel_of ada))))

upstream_texts-taken : (ts : List Text) → upstream_texts (map (λ t. from_upstream t true) ts) ≡ ts
upstream_texts-taken [] = refl
upstream_texts-taken (t ∷ ts) = ap (◌∷◌ t) (upstream_texts-taken ts)

browser_told_example :
    let token = access_token in
    let url = codes "ws://" ++ (host ++ path token) in
    let browser = (proxy_documents_ws service_url (λ u. true) events (some token)).1.to_browser in
    IsPrefix browser (map postfix.dumps hers)
    × (All Delivers (happens (channel_of ada))
        → All IsTaken (events url)
        → browser ≡ map postfix.dumps hers)
unfolding contains
browser_told_example =
    browser_told postfix plain (λ t. true) subscriber postfix.dumps statuses 60000 access_token 7
      happens others tabs user _ host (λ u. true) events refl refl (λ owner. arrived_all _)
      served_user refl (upstream_texts-taken _)
