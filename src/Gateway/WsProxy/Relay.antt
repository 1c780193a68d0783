-- ===== src/Gateway/WsProxy/Relay.antt =====
-- Which texts each side gets, and the URL of the other side.
use ai_document_analysis.Prelude.{
  ◌≡◌, refl, ap, ◌∙◌, true, false, List, [], ◌∷◌, ◌++◌, Text, codes, All, IsPrefix, contains,
  starts_with,
}
use ai_document_analysis.Prelude.Replace.{replace, replace-absent, replace_first}
use ai_document_analysis.Gateway.WsProxy.{
  Event, from_browser, from_upstream, upstream_ends, relay, upstream_ws_url,
}

-- The texts that come from document-service, before its socket ends, and from the browser.
abbrev pub upstream_texts : List Event → List Text
upstream_texts [] = []
upstream_texts (from_browser message taken ∷ events) = upstream_texts events
upstream_texts (from_upstream message taken ∷ events) = message ∷ upstream_texts events
upstream_texts (upstream_ends ∷ events) = []

abbrev pub browser_texts : List Event → List Text
browser_texts [] = []
browser_texts (from_browser message taken ∷ events) = message ∷ browser_texts events
browser_texts (from_upstream message taken ∷ events) = browser_texts events
browser_texts (upstream_ends ∷ events) = []

abbrev pub IsTaken : Event → Type 0
IsTaken (from_browser message taken) = taken ≡ true
IsTaken (from_upstream message taken) = taken ≡ true
IsTaken upstream_ends = Unit

cons-IsPrefix : (t : Text) (xs ys : List Text) → IsPrefix xs ys → IsPrefix (t ∷ xs) (t ∷ ys)
cons-IsPrefix t xs ys (rest, e) = (rest, ap (◌∷◌ t) e)

-- Each side gets the texts of the other one, in their order, up to the first that is not taken or
-- to the end of one of the sockets; if each text is taken, all of them.
pub relay_lem :
    (events : List Event)
    → let r = relay events in
      IsPrefix r.to_browser (upstream_texts events)
      × IsPrefix r.to_upstream (browser_texts events)
      × (All IsTaken events
          → (r.to_browser ≡ upstream_texts events) × (r.to_upstream ≡ browser_texts events))
unfolding relay
relay_lem [] = (([], refl), ([], refl), λ h. (refl, refl))
relay_lem (upstream_ends ∷ events) = (([], refl), ([], refl), λ h. (refl, refl))
relay_lem (from_browser message true ∷ events) =
    let (to_browser, to_upstream, whole) = relay_lem events in
    (
      to_browser,
      cons-IsPrefix message _ _ to_upstream,
      λ h. ((whole h.1).0, ap (◌∷◌ message) (whole h.1).1),
    )
relay_lem (from_browser message false ∷ events) =
    ((upstream_texts events, refl), (message ∷ browser_texts events, refl), λ h. cc (h.0))
relay_lem (from_upstream message true ∷ events) =
    let (to_browser, to_upstream, whole) = relay_lem events in
    (
      cons-IsPrefix message _ _ to_browser,
      to_upstream,
      λ h. (ap (◌∷◌ message) (whole h.1).0, (whole h.1).1),
    )
relay_lem (from_upstream message false ∷ events) =
    ((message ∷ upstream_texts events, refl), (browser_texts events, refl), λ h. cc (h.0))

-- The path of the route with a token.
abbrev pub path : Text → Text
path token = codes "/api/v1/documents/ws?token=" ++ token

-- A DOCUMENT_SERVICE_URL by HTTP, or by HTTPS, whose rest has no second scheme in it, becomes the
-- WebSocket URL of the same host by WS, or by WSS, with the path of the route and the token.
pub upstream_ws_url_lem :
    (rest token : Text)
    → contains (codes "http://") rest ≡ false
    → contains (codes "https://") rest ≡ false
    → (upstream_ws_url (codes "http://" ++ rest) token ≡ codes "ws://" ++ (rest ++ path token))
      × (upstream_ws_url (codes "https://" ++ rest) token ≡ codes "wss://" ++ (rest ++ path token))
unfolding upstream_ws_url contains starts_with
upstream_ws_url_lem rest token plain secure =
    let http : Text → Text = replace (codes "http://") (codes "ws://") in
    let https : Text → Text = replace (codes "https://") (codes "wss://") in
    let kept : https (codes "http://" ++ rest) ≡ codes "http://" ++ rest =
      replace-absent 104 (codes "ttps://") (codes "wss://") (codes "http://" ++ rest) secure in
    let to_ws : http (codes "http://" ++ rest) ≡ codes "ws://" ++ rest =
      replace_first 104 (codes "ttp://") (codes "ws://") rest
      ∙ ap (λ t. codes "ws://" ++ t)
          (replace-absent 104 (codes "ttp://") (codes "ws://") rest plain) in
    let to_wss : https (codes "https://" ++ rest) ≡ codes "wss://" ++ rest =
      replace_first 104 (codes "ttps://") (codes "wss://") rest
      ∙ ap (λ t. codes "wss://" ++ t)
          (replace-absent 104 (codes "ttps://") (codes "wss://") rest secure) in
    let left : http (codes "wss://" ++ rest) ≡ codes "wss://" ++ rest =
      replace-absent 104 (codes "ttp://") (codes "ws://") (codes "wss://" ++ rest) plain in
    (
      ap (λ t. t ++ path token) (ap http kept ∙ to_ws),
      ap (λ t. t ++ path token) (ap http to_wss ∙ left),
    )
