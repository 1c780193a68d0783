-- ===== src/DocumentService/WsManager.antt =====
-- document-service/app/core/ws_manager.py: `DocumentStatusConnectionManager`. A WebSocket is
-- compared by identity only, and stands here as a number; an owner's UUID is its text.
pub mod Connections
pub mod Delivery
pub mod Runs
mod Tests
use ai_document_analysis.Prelude.{
  ℕ, Bool, true, false, Option, none, some, List, [], ◌∷◌, ◌++◌, Text, ◌==◌, text-Eq, nat_eq,
  length, is_empty, if◌then◌else◌,
}
use ai_document_analysis.Prelude.Dict.{Dict, lookup, insert, erase}

-- `self._connections`
abbrev pub Connections : Type 0
Connections = Dict Text (List ℕ)

-- `list.remove`: the first occurrence, if there is one
unfoldable pub remove : ℕ → List ℕ → List ℕ
remove ws [] = []
remove ws (c ∷ cs) = let rest = remove ws cs in if nat_eq c ws then cs else c ∷ rest

-- `self._connections.setdefault(owner_id, []).append(websocket)`
pub connect : Text → ℕ → Connections → Connections
connect owner ws m = elim (lookup owner m) [
  | none ↦ insert owner (ws ∷ []) m
  | some cs ↦ insert owner (cs ++ ws ∷ []) m
]

-- The rest of `disconnect`, with the list that `.get(owner_id)` found.
pub disconnect_from : Text → ℕ → Option (List ℕ) → Connections → Connections
unfolding remove
disconnect_from owner ws none m = m
disconnect_from owner ws (some []) m = m
disconnect_from owner ws (some (c ∷ cs)) m =
    let left = remove ws (c ∷ cs) in if is_empty left then erase owner m else insert owner left m

pub disconnect : Text → ℕ → Connections → Connections
unfolding disconnect_from
disconnect owner ws m = disconnect_from owner ws (lookup owner m) m

-- `self._connections.get(owner_id, [])`
abbrev pub connections : Connections → Text → List ℕ
connections m owner = elim (lookup owner m) [ none ↦ [] | some cs ↦ cs ]

pub connection_count : Text → Connections → ℕ
connection_count owner m = length (connections m owner)

-- The loop of `send_to_owner` over its copy of the list. `delivers` says for which sockets
-- `send_json` returns; the result has the sockets that were served, in order.
pub send_each : (ℕ → Bool) → Text → List ℕ → Connections → List ℕ × Connections
send_each delivers owner [] m = ([], m)
send_each delivers owner (ws ∷ wss) m =
    let (sent, m') =
      send_each delivers owner wss (if delivers ws then m else disconnect owner ws m) in
    (if delivers ws then ws ∷ sent else sent, m')

pub send_to_owner : (ℕ → Bool) → Text → Connections → List ℕ × Connections
unfolding send_each
send_to_owner delivers owner m = send_each delivers owner (connections m owner) m
