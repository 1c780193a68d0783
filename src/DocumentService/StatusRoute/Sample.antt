-- ===== src/DocumentService/StatusRoute/Sample.antt =====
-- A session of ada's, while statuses of two users are published.
use ai_document_analysis.Prelude.{
  ◌≡◌, refl, ap, map, true, not, Option, none, some, List, [], ◌∷◌, Text, codes, text_eq, nat_eq,
}
use ai_document_analysis.Shared.Exceptions.{ok}
use ai_document_analysis.Shared.Json.{Json}
use ai_document_analysis.Shared.Json.Postfix.{postfix}
use ai_document_analysis.Shared.Redis.Channels.{Message, publications, payloads_of, channel_of}
use ai_document_analysis.Shared.Redis.Subscriber.{subscriber}
use ai_document_analysis.Shared.Jwt.{create_access_token}
use ai_document_analysis.Shared.Jwt.Plain
use ai_document_analysis.Shared.Jwt.Plain.{plain}
use ai_document_analysis.Shared.Oauth.{CurrentUser, resolve_user_from_token}
use ai_document_analysis.DocumentService.WsManager.{Connections}
use ai_document_analysis.DocumentService.WsManager.Runs.{Call}
use ai_document_analysis.DocumentService.StatusRoute.{
  Event, arrives, serve, served, document_status_ws,
}
use ai_document_analysis.DocumentService.StatusRoute.Messages.{arrived}

abbrev pub ada : Text
ada = codes "ada"

abbrev pub access_token : Text
access_token = create_access_token plain 15 ada none 1000 []

abbrev pub token : Option Text
token = some access_token

abbrev pub tabs : Connections
tabs = (ada, 3 ∷ []) ∷ []

abbrev pub others : List Call
others = Call.connected ada 4 ∷ Call.sent (λ ws. not (nat_eq ws 3)) ada ∷ []

-- Two statuses are published, the second one for another user.
abbrev pub statuses : List (Text × Json)
statuses = (ada, Json.str (codes "hers")) ∷ (codes "bob", Json.str (codes "his")) ∷ []

abbrev pub happens : Text → List Event
happens channel =
    map (λ m. arrives m true) (subscriber.listen channel (publications postfix statuses))

pub arrived_all : (ms : List Message) → arrived (map (λ m. arrives m true) ms) ≡ ms
arrived_all [] = refl
arrived_all (m ∷ ms) = ap (◌∷◌ m) (arrived_all ms)

abbrev pub user : CurrentUser
user = record {
  id = ada;
  role = none;
  raw_claims = record {
    sub = some ada;
    type = some (codes "access");
    jti = some [];
    iat = some 1;
    exp = some 901;
    email = none;
    role = none;
  };
}

abbrev pub hers : List Json
hers = payloads_of ada statuses

pub served_user :
    (document_status_ws postfix plain (λ t. true) 60000 token 7 happens others tabs).0
    ≡ ok (served user (serve postfix (happens (channel_of ada))))
unfolding document_status_ws resolve_user_from_token create_access_token Plain.write Plain.decode
    text_eq
served_user = refl
