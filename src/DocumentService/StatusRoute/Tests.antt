-- ===== src/DocumentService/StatusRoute/Tests.antt =====
-- A session of ada's, while another tab of hers opens and a message finds a third one gone.
use ai_document_analysis.Prelude.{
  ℕ, IsPrefix, ◌≡◌, ◌≢◌, refl, map, true, some, List, [], ◌∷◌, Text, codes, text_eq, All,
  Bool-cases, inl, inr, arith,
}
use ai_document_analysis.Shared.Exceptions.{ok}
use ai_document_analysis.Shared.Json.{Json}
use ai_document_analysis.Shared.Json.Postfix.{postfix}
use ai_document_analysis.Shared.Redis.Channels.{Message, Publication, channel_of}
use ai_document_analysis.Shared.Redis.Subscriber.{subscriber}
use ai_document_analysis.Shared.Jwt.{create_access_token}
use ai_document_analysis.Shared.Jwt.Plain
use ai_document_analysis.Shared.Jwt.Plain.{plain}
use ai_document_analysis.Shared.Oauth.{CurrentUser, resolve_user_from_token}
use ai_document_analysis.AiWorker.FaissStore.IdIndex.{id_index, fresh-IsSound}
use ai_document_analysis.AiWorker.Tasks.{Row, Worker, processed_payload}
use ai_document_analysis.AiWorker.Tasks.Processing.{run as run_task}
use ai_document_analysis.AiWorker.Tasks.Sample.{row, chunks, worker, good, no_message}
use ai_document_analysis.DocumentService.StatusRoute.Pipeline.{run-told}
use ai_document_analysis.DocumentService.WsManager.{connections}
use ai_document_analysis.DocumentService.WsManager.Runs.{run}
use ai_document_analysis.DocumentService.StatusRoute.{
  Event, arrives, serve, served, document_status_ws,
}
use ai_document_analysis.DocumentService.StatusRoute.Messages.{Delivers, document_status_ws-told}
use ai_document_analysis.DocumentService.StatusRoute.Sample.{
  ada, token, tabs, others, statuses, happens, arrived_all, user, hers, served_user,
}
use ai_document_analysis.DocumentService.StatusRoute.Sessions.{document_status_ws-traceless}

fresh : (j : Text) → All (λ c. c ≢ 7) (connections tabs j)
unfolding text_eq
fresh j = elim (Bool-cases (text_eq ada j)) [
  | inl same ↦ rw same (λ e. omega arith, tt)
  | inr other ↦ rw other tt
]

document_status_ws-traceless_example :
    let (ending, m') =
      document_status_ws postfix plain (λ t. true) 60000 token 7 happens others tabs in
    ((j : Text) → connections m' j ≡ connections (run others tabs) j)
    × ((user : CurrentUser) (sent : List Json)
        → ending ≡ ok (served user sent)
        → (t : Text) × (token ≡ some t)
          × (resolve_user_from_token plain (λ t. true) 60000 t ≡ ok user))
document_status_ws-traceless_example =
    document_status_ws-traceless postfix plain (λ t. true) 60000 7 happens others tabs token
      (λ e. omega arith, (tt, tt)) fresh

document_status_ws-told_example :
    IsPrefix (serve postfix (happens (channel_of ada))) hers
    × (All Delivers (happens (channel_of ada)) → serve postfix (happens (channel_of ada)) ≡ hers)
document_status_ws-told_example =
    document_status_ws-told postfix plain (λ t. true) subscriber statuses 60000 token 7 happens
      others tabs user _ (λ owner. arrived_all _) served_user

-- A run for a document of ada's, while her socket is served.
abbrev ada_row : Row
ada_row = record row { owner_id = ada }

abbrev ada_worker : Worker (List ℕ)
ada_worker = record worker { row = some ada_row }

abbrev published : List Publication
published = (run_task postfix id_index (codes "up") no_message good ada_worker).1.published

abbrev during : Text → List Event
during channel = map (λ m. arrives m true) (subscriber.listen channel published)

served_meanwhile :
    (document_status_ws postfix plain (λ t. true) 60000 token 7 during others tabs).0
    ≡ ok (served user (serve postfix (during (channel_of ada))))
unfolding document_status_ws resolve_user_from_token create_access_token Plain.write Plain.decode
    text_eq
served_meanwhile = refl

each_delivered : (ms : List Message) → All Delivers (map (λ m. arrives m true) ms)
each_delivered [] = tt
each_delivered (m ∷ ms) = (refl, each_delivered ms)

run-told_example : serve postfix (during (channel_of ada)) ≡ processed_payload (codes "d1") 1 ∷ []
unfolding text_eq
run-told_example =
    run-told postfix plain (λ t. true) subscriber id_index (codes "up") no_message good ada_worker
      ada_row chunks (3 ∷ []) 60000 token 7 during others tabs user _
      (record {
        there = refl;
        stored = refl;
        embedded = refl;
        owned = cc;
        paired = refl;
        sound = fresh-IsSound;
      })
      refl refl refl (λ owner. arrived_all _) served_meanwhile (each_delivered _)
