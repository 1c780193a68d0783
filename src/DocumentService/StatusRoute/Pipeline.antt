-- ===== src/DocumentService/StatusRoute/Pipeline.antt =====
-- From a run of the worker's task to what the sockets of the users are sent.
use ai_document_analysis.Prelude.{
  ℕ, ◌≡◌, refl, ap, ◌∙◌, Bool, Option, none, List, [], ◌∷◌, ◌++◌, Text, ◌==◌, text-Eq, All, length,
  inl, inr, Bool-cases, if◌then◌else◌,
}
use ai_document_analysis.Shared.Exceptions.{ok}
use ai_document_analysis.Shared.Json.{Json}
use ai_document_analysis.Shared.Json.Codec.{Codec}
use ai_document_analysis.Shared.Redis.Channels.{PubSub, channel_of, publications}
use ai_document_analysis.Shared.Jwt.Tokens.{Jose}
use ai_document_analysis.Shared.Oauth.{CurrentUser}
use ai_document_analysis.DocumentService.WsManager.{Connections}
use ai_document_analysis.DocumentService.WsManager.Runs.{Call}
use ai_document_analysis.DocumentService.StatusRoute.{Event, served, document_status_ws}
use ai_document_analysis.DocumentService.StatusRoute.Messages.{
  arrived, Delivers, document_status_ws-told,
}
use ai_document_analysis.AiWorker.FaissStore.Interface.{Faiss}
use ai_document_analysis.AiWorker.FaissStore.Types.{Outcome}
use ai_document_analysis.AiWorker.Tasks.{Row, Worker, Outside, processed_payload}
use ai_document_analysis.AiWorker.Tasks.Processing.{run, IsReady, process_document-processed}

module _ (C : Codec) (J : Jose) (is_uuid : Text → Bool) (P : PubSub) (F : Faiss) (upload_dir : Text)
    (message_of : Outcome ℕ → Text) where
  open F use {Index, Vector}

  -- A run that meets nothing that fails, while a socket is served whose every `send_json` returns:
  -- the socket of the document's owner is sent exactly one message, that the document is processed
  -- with as many chunks as its sidecar has, and the socket of any other user is sent none.
  pub run-told :
      (o : Outside Vector) (w : Worker Index) (row : Row) (chunks : List Text)
      (vectors : List Vector) (now : ℕ) (token : Option Text) (ws : ℕ) (happens : Text → List Event)
      (others : List Call) (m : Connections) (user : CurrentUser) (sent : List Json)
      → IsReady C F upload_dir message_of o w row chunks vectors
      → o.send_raises ≡ none
      → o.publish_raises ≡ none
      → w.published ≡ []
      → ((owner : Text)
          → arrived (happens (channel_of owner))
            ≡ P.listen (channel_of owner) (run C F upload_dir message_of o w).1.published)
      → (document_status_ws C J is_uuid now token ws happens others m).0 ≡ ok (served user sent)
      → All Delivers (happens (channel_of user.id))
      → sent
        ≡ (if row.owner_id == user.id then processed_payload row.id (length chunks) ∷ [] else [])
  run-told o w row chunks vectors now token ws happens others m user sent ready sends publishes
        quiet fed served_user delivers =
      let statuses : List (Text × Json) =
        (row.owner_id, processed_payload row.id (length chunks)) ∷ [] in
      let (w', ran, _, _, _, published) =
        process_document-processed C F upload_dir message_of o w row chunks vectors ready sends
          publishes in
      let told : (run C F upload_dir message_of o w).1.published ≡ publications C statuses =
        ap (λ r. r.1.published) ran ∙ published ∙ ap (λ ps. ps ++ publications C statuses) quiet in
      let (part, whole) =
        document_status_ws-told C J is_uuid P statuses now token ws happens others m user sent
          (λ owner. fed owner ∙ ap (P.listen (channel_of owner)) told) served_user in
      whole delivers ∙ elim (Bool-cases (row.owner_id == user.id)) [
        | inl own ↦ rw own refl
        | inr other ↦ rw other refl
      ]
