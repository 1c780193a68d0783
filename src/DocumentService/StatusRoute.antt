-- ===== src/DocumentService/StatusRoute.antt =====
-- document-service/app/api/v1/documents_ws.py: the route of a status WebSocket, what it does to the
-- connection manager, and what it sends. Other handlers call the manager while the route waits;
-- these calls are the argument `others`.
pub mod Sessions
pub mod Messages
pub mod Pipeline
pub mod Sample
mod Tests
use ai_document_analysis.Prelude.{ℕ, Bool, if◌then◌else◌, Option, none, some, List, [], ◌∷◌, Text}
use ai_document_analysis.Shared.Exceptions.{Exception, Result, ok, raise}
use ai_document_analysis.Shared.Json.{Json}
use ai_document_analysis.Shared.Json.Codec.{Codec}
use ai_document_analysis.Shared.Redis.Channels.{
  Message, Update, skipped, yielded, raised, channel_of, update_of,
}
use ai_document_analysis.Shared.Jwt.Tokens.{Jose}
use ai_document_analysis.Shared.Oauth.{CurrentUser, resolve_user_from_token}
use ai_document_analysis.DocumentService.WsManager.{Connections, connect, disconnect}
use ai_document_analysis.DocumentService.WsManager.Runs.{Call, run}

-- What happens at an open socket before its client leaves: a message of the subscription, with
-- whether `send_json` would return for it, or a text of the client, which nothing reads.
pub data Event : Type 0 where
  arrives : Message → Bool → Event
  says : Text → Event

-- How the route ends: closed with a code before it is accepted, or after it has sent a user some
-- payloads. An error of the session is logged and ends it like a client that leaves.
pub data Ending : Type 0 where
  closed : ℕ → Ending
  served : CurrentUser → List Json → Ending

-- The `except UnauthorizedException`
abbrev pub refused : Exception → Result Ending
refused (Exception.unauthorized m) = ok (closed 1008)
refused e = raise e

-- One message in `forward_status_updates`, before what `rest` sends; data that is not JSON and a
-- `send_json` that raises end the session.
abbrev pub forward : Update → Bool → List Json → List Json
forward skipped delivers rest = rest
forward (yielded payload) delivers rest = if delivers then payload ∷ rest else []
forward raised delivers rest = []

module _ (C : Codec) where
  -- The two tasks of a session: what the socket is sent.
  unfoldable pub serve : List Event → List Json
  serve [] = []
  serve (arrives message delivers ∷ events) = forward (update_of C message) delivers (serve events)
  serve (says text ∷ events) = serve events

module _ (C : Codec) (J : Jose) (is_uuid : Text → Bool) where
  -- The route after the test of the token; `happens` is what happens at a socket that is
  -- subscribed to a channel.
  abbrev pub route_of :
      Result CurrentUser
      → ℕ
      → (Text → List Event)
      → List Call
      → Connections
      → Result Ending × Connections
  route_of (raise e) ws happens others m = (refused e, run others m)
  route_of (ok user) ws happens others m = (
    ok (served user (serve C (happens (channel_of user.id)))),
    disconnect user.id ws (run others (connect user.id ws m)),
  )

  pub document_status_ws :
      ℕ
      → Option Text
      → ℕ
      → (Text → List Event)
      → List Call
      → Connections
      → Result Ending × Connections
  document_status_ws now none ws happens others m = (ok (closed 1008), run others m)
  document_status_ws now (some []) ws happens others m = (ok (closed 1008), run others m)
  document_status_ws now (some (c ∷ token)) ws happens others m =
      route_of (resolve_user_from_token J is_uuid now (c ∷ token)) ws happens others m
