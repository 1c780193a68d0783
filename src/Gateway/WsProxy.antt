-- ===== src/Gateway/WsProxy.antt =====
-- gateway-service/app/api/v1/ws_proxy.py: the WebSocket relay to document-service.
pub mod Relay
pub mod Through
mod Tests
use ai_document_analysis.Prelude.{
  ℕ, Bool, true, false, Option, none, some, List, [], ◌∷◌, ◌++◌, Text, codes, if◌then◌else◌,
}
use ai_document_analysis.Prelude.Replace.{replace}

-- `_upstream_ws_url`, of DOCUMENT_SERVICE_URL and a token
unfoldable pub upstream_ws_url : Text → Text → Text
unfolding replace
upstream_ws_url document_service_url token =
    let base =
      replace (codes "http://") (codes "ws://")
        (replace (codes "https://") (codes "wss://") document_service_url) in
    base ++ (codes "/api/v1/documents/ws?token=" ++ token)

-- What happens while both sockets are open, until the browser leaves: a text from one of them, and
-- whether the other one takes it; or the end of document-service's socket, by its close or by an
-- exception.
pub data Event : Type 0 where
  from_browser : Text → Bool → Event
  from_upstream : Text → Bool → Event
  upstream_ends : Event

-- The texts that document-service and the browser are sent.
pub record Relayed : Type 0 where
  pub to_upstream : List Text
  pub to_browser : List Text

abbrev pub nothing : Relayed
nothing = record { to_upstream = []; to_browser = [] }

-- The two tasks: the first one that ends ends the other one too.
unfoldable pub relay : List Event → Relayed
relay [] = nothing
relay (from_browser message taken ∷ events) =
    let rest = relay events in
    if taken then record rest { to_upstream = message ∷ rest.to_upstream } else nothing
relay (from_upstream message taken ∷ events) =
    let rest = relay events in
    if taken then record rest { to_browser = message ∷ rest.to_browser } else nothing
relay (upstream_ends ∷ events) = nothing

-- `proxy_documents_ws`: the URL that it connects to, and what it relays before it closes the
-- browser's socket, which it does however it ends. `connects` says whether document-service accepts
-- the connection to a URL, and `events` what happens on it then.
pub proxy_documents_ws : Text → (Text → Bool) → (Text → List Event) → Option Text → Text × Relayed
unfolding upstream_ws_url relay
proxy_documents_ws document_service_url connects events token =
    let url = upstream_ws_url document_service_url (elim token [ none ↦ [] | some t ↦ t ]) in
    (url, if connects url then relay (events url) else nothing)
