-- ===== src/DocumentService/WsManager/Runs.antt =====
-- Any sequence of calls on the manager, from the empty dictionary that it begins with.
use ai_document_analysis.Prelude.{
  ℕ, suc, ◌≡◌, Bool, List, [], ◌∷◌, ◌++◌, Text, length, length-append, arith, text_eq_iff,
}
use ai_document_analysis.DocumentService.WsManager.{
  Connections, connect, disconnect, send_to_owner, connections, connection_count, remove,
}
use ai_document_analysis.DocumentService.WsManager.Connections.{
  connections-connect, connections-disconnect, IsTidy, connect-IsTidy, disconnect-IsTidy,
}
use ai_document_analysis.DocumentService.WsManager.Delivery.{send_to_owner-IsTidy}

pub data Call : Type 0 where
  connected disconnected : Text → ℕ → Call
  sent : (ℕ → Bool) → Text → Call

unfoldable pub call : Call → Connections → Connections
call (Call.connected owner ws) m = connect owner ws m
call (Call.disconnected owner ws) m = disconnect owner ws m
call (Call.sent delivers owner) m = (send_to_owner delivers owner m).1

unfoldable pub run : List Call → Connections → Connections
unfolding call
run [] m = m
run (c ∷ calls) m = run calls (call c m)

call-IsTidy : (c : Call) (m : Connections) → IsTidy m → IsTidy (call c m)
unfolding call
call-IsTidy (Call.connected owner ws) m h = connect-IsTidy owner ws m h
call-IsTidy (Call.disconnected owner ws) m h = disconnect-IsTidy owner ws m h
call-IsTidy (Call.sent delivers owner) m h = send_to_owner-IsTidy delivers owner m h

-- After any calls that keep to a tidy dictionary, no owner is listed with an empty list: memory is
-- held only for owners with an open connection.
pub run-IsTidy : (calls : List Call) (m : Connections) → IsTidy m → IsTidy (run calls m)
unfolding run
run-IsTidy [] m h = h
run-IsTidy (c ∷ calls) m h = run-IsTidy calls (call c m) (call-IsTidy c m h)

length-remove : (ws : ℕ) (cs : List ℕ) → length (remove ws (cs ++ ws ∷ [])) ≡ length cs
unfolding remove
length-remove ws [] = ground arith
length-remove ws (c ∷ cs) = ground (arith, length-remove ws cs, length-append cs (ws ∷ []))

-- A tab that opens and closes again leaves its owner's count as it was, also for a socket that is
-- registered more than once.
pub connection_count-disconnect-connect :
    (owner : Text) (ws : ℕ) (m : Connections)
    → (connection_count owner (connect owner ws m) ≡ suc (connection_count owner m))
      × (connection_count owner (disconnect owner ws (connect owner ws m))
          ≡ connection_count owner m)
unfolding connection_count
connection_count-disconnect-connect owner ws m = (
  ground (
    arith,
    connections-connect owner owner ws m,
    text_eq_iff owner owner,
    length-append (connections m owner) (ws ∷ []),
  ),
  ground (
    arith,
    connections-disconnect owner owner ws (connect owner ws m),
    connections-connect owner owner ws m,
    text_eq_iff owner owner,
    length-remove ws (connections m owner),
  ),
)
