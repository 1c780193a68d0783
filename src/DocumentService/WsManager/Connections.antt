-- ===== src/DocumentService/WsManager/Connections.antt =====
-- What `connect` and `disconnect` do to each owner's list, and the invariant of the dictionary.
use ai_document_analysis.Prelude.{
  ℕ, ◌≡◌, ◌≢◌, refl, inl, inr, Option, none, some, List, [], ◌∷◌, ◌++◌, Text, ◌==◌, text-Eq,
  text_eq_iff, arith, Option-cases, if◌then◌else◌,
}
use ai_document_analysis.Prelude.Dict.{lookup, lookup-insert, lookup-erase}
use ai_document_analysis.DocumentService.WsManager.{
  Connections, remove, connect, disconnect_from, disconnect, connections,
}

-- `connect` appends to its owner's list and leaves every other list alone.
pub connections-connect :
    (owner j : Text) (ws : ℕ) (m : Connections)
    → connections (connect owner ws m) j
      ≡ (if owner == j then connections m owner ++ ws ∷ [] else connections m j)
unfolding connect
connections-connect owner j ws m = elim (Option-cases (lookup owner m)) [
  | inl fresh ↦ ground (arith, text_eq_iff owner j, lookup-insert owner j (ws ∷ []) m)
  | inr (cs, known) ↦ ground (arith, text_eq_iff owner j, lookup-insert owner j (cs ++ ws ∷ []) m)
]

connections-disconnect_from :
    (owner j : Text) (ws : ℕ) (found : Option (List ℕ)) (m : Connections)
    → lookup owner m ≡ found
    → connections (disconnect_from owner ws found m) j
      ≡ (if owner == j then remove ws (connections m owner) else connections m j)
unfolding disconnect_from remove
connections-disconnect_from owner j ws none m e = ground (arith, text_eq_iff owner j)
connections-disconnect_from owner j ws (some []) m e = ground (arith, text_eq_iff owner j)
connections-disconnect_from owner j ws (some (c ∷ cs)) m e = ground (
  arith,
  text_eq_iff owner j,
  lookup-erase owner j m,
  lookup-insert owner j (remove ws (c ∷ cs)) m,
)

-- `disconnect` drops one registration of the socket from its owner's list, if there is one, and
-- leaves every other list alone.
pub connections-disconnect :
    (owner j : Text) (ws : ℕ) (m : Connections)
    → connections (disconnect owner ws m) j
      ≡ (if owner == j then remove ws (connections m owner) else connections m j)
unfolding disconnect
connections-disconnect owner j ws m = connections-disconnect_from owner j ws (lookup owner m) m refl

-- No owner is listed with an empty list: an owner with no connection has no entry.
pub record IsTidy (m : Connections) : Type 0 where
  pub at : (j : Text) → lookup j m ≢ some []

append-ne-nil : (cs : List ℕ) (ws : ℕ) → (cs ++ ws ∷ []) ≢ []
append-ne-nil [] ws h = cc
append-ne-nil (c ∷ cs) ws h = cc

pub connect-IsTidy :
    (owner : Text) (ws : ℕ) (m : Connections) → IsTidy m → IsTidy (connect owner ws m)
unfolding connect
connect-IsTidy owner ws m h = record {
  at = λ j. elim (Option-cases (lookup owner m)) [
    | inl fresh ↦ ground (arith, lookup-insert owner j (ws ∷ []) m, h.at j)
    | inr (cs, known) ↦
        ground (arith, append-ne-nil cs ws, lookup-insert owner j (cs ++ ws ∷ []) m, h.at j)
  ];
}

pub disconnect-IsTidy :
    (owner : Text) (ws : ℕ) (m : Connections) → IsTidy m → IsTidy (disconnect owner ws m)
unfolding disconnect disconnect_from
disconnect-IsTidy owner ws m h = record {
  at = λ j. elim (Option-cases (lookup owner m)) [
    | inl unknown ↦ ground (arith, h.at j)
    | inr ([], known) ↦ ground (arith, h.at j)
    | inr (c ∷ cs, known) ↦
        ground (arith, h.at j, lookup-erase owner j m, lookup-insert owner j (remove ws (c ∷ cs)) m)
  ];
}
