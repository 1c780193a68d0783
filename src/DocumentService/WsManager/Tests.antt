-- ===== src/DocumentService/WsManager/Tests.antt =====
-- The manager at the inputs of its own tests: two tabs, one of which is gone.
use ai_document_analysis.Prelude.{
  ℕ, suc, ◌≡◌, refl, Bool, false, not, [], ◌∷◌, Text, ◌==◌, text-Eq, text_eq, codes, nat_eq, filter,
}
use ai_document_analysis.DocumentService.WsManager.{
  Connections, connect, disconnect, send_to_owner, connections, connection_count,
}
use ai_document_analysis.DocumentService.WsManager.Connections.{IsTidy}
use ai_document_analysis.DocumentService.WsManager.Delivery.{send_to_owner_lem}
use ai_document_analysis.DocumentService.WsManager.Runs.{
  Call, run, run-IsTidy, connection_count-disconnect-connect,
}

abbrev alice : Text
alice = codes "a"

abbrev bob : Text
bob = codes "b"

abbrev tabs : Connections
tabs = (alice, 1 ∷ 2 ∷ []) ∷ (bob, 3 ∷ []) ∷ []

abbrev gone : ℕ → Bool
gone ws = not (nat_eq ws 1)

after_delivery : send_to_owner gone alice tabs ≡ (2 ∷ [], (alice, 2 ∷ []) ∷ (bob, 3 ∷ []) ∷ [])
unfolding send_to_owner disconnect text_eq
after_delivery = refl

gone_tab_dropped :
    let (sent, m') = send_to_owner gone alice tabs in
    (sent ≡ filter gone (connections tabs alice))
    × (connections m' alice ≡ filter gone (connections tabs alice))
    × ((alice == bob) ≡ false → connections m' bob ≡ connections tabs bob)
gone_tab_dropped = send_to_owner_lem gone alice bob tabs

IsTidy-nil : IsTidy []
IsTidy-nil = record { at = λ j. cc }

two_tabs-IsTidy :
    IsTidy (run (Call.connected alice 1 ∷ Call.sent gone alice ∷ Call.disconnected bob 2 ∷ []) [])
two_tabs-IsTidy =
    run-IsTidy (Call.connected alice 1 ∷ Call.sent gone alice ∷ Call.disconnected bob 2 ∷ []) []
      IsTidy-nil

third_tab_opens_and_closes :
    (connection_count alice (connect alice 7 tabs) ≡ suc (connection_count alice tabs))
    × (connection_count alice (disconnect alice 7 (connect alice 7 tabs))
        ≡ connection_count alice tabs)
third_tab_opens_and_closes = connection_count-disconnect-connect alice 7 tabs
