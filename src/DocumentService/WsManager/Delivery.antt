-- ===== src/DocumentService/WsManager/Delivery.antt =====
-- `send_to_owner` serves every connection that still works, and drops exactly the others.
use mathlib.Core.List.{append_assoc}
use ai_document_analysis.Prelude.{
  ℕ, ◌≡◌, refl, sym, inl, inr, ◌∙◌, ap, Bool, true, false, List, [], ◌∷◌, ◌++◌, Text, ◌==◌, text-Eq,
  text_eq_iff, filter, All, All-append, arith, Bool-cases,
}
use ai_document_analysis.DocumentService.WsManager.{
  Connections, remove, disconnect, connections, send_each, send_to_owner,
}
use ai_document_analysis.DocumentService.WsManager.Connections.{
  connections-disconnect, IsTidy, disconnect-IsTidy,
}

-- A socket that does not work is not among those that do.
remove-append_dead :
    (delivers : ℕ → Bool) (ws : ℕ) (done rest : List ℕ)
    → All (λ c. delivers c ≡ true) done
    → delivers ws ≡ false
    → remove ws (done ++ ws ∷ rest) ≡ done ++ rest
unfolding remove
remove-append_dead delivers ws [] rest alive dead = ground arith
remove-append_dead delivers ws (c ∷ done) rest alive dead =
    ground (arith, remove-append_dead delivers ws done rest alive.1 dead)

connections-disconnect_self :
    (owner : Text) (ws : ℕ) (m : Connections)
    → connections (disconnect owner ws m) owner ≡ remove ws (connections m owner)
connections-disconnect_self owner ws m =
    ground (arith, connections-disconnect owner owner ws m, text_eq_iff owner owner)

connections-disconnect_ne :
    (owner j : Text) (ws : ℕ) (m : Connections)
    → (owner == j) ≡ false
    → connections (disconnect owner ws m) j ≡ connections m j
connections-disconnect_ne owner j ws m ne = ground (arith, connections-disconnect owner j ws m)

sent-send_each :
    (delivers : ℕ → Bool) (owner : Text) (wss : List ℕ) (m : Connections)
    → (send_each delivers owner wss m).0 ≡ filter delivers wss
unfolding send_each
sent-send_each delivers owner [] m = refl
sent-send_each delivers owner (ws ∷ wss) m = elim (Bool-cases (delivers ws)) [
  | inl alive ↦ rw alive (ap (◌∷◌ ws) (sent-send_each delivers owner wss m))
  | inr dead ↦ rw dead (sent-send_each delivers owner wss (disconnect owner ws m))
]

-- What is left of the owner's list, when `done` is the part of it that the loop has passed.
left-send_each :
    (delivers : ℕ → Bool) (owner : Text) (done wss : List ℕ) (m : Connections)
    → All (λ c. delivers c ≡ true) done
    → connections m owner ≡ done ++ wss
    → connections (send_each delivers owner wss m).1 owner ≡ done ++ filter delivers wss
unfolding send_each
left-send_each delivers owner done [] m alive e = e
left-send_each delivers owner done (ws ∷ wss) m alive e = elim (Bool-cases (delivers ws)) [
  | inl works ↦ rw works (
      left-send_each delivers owner (done ++ ws ∷ []) wss m
        (All-append _ done (ws ∷ []) alive (works, tt)) (e ∙ sym (append_assoc done (ws ∷ []) wss))
      ∙ append_assoc done (ws ∷ []) _)
  | inr dead ↦ rw dead (
      left-send_each delivers owner done wss (disconnect owner ws m) alive (
        connections-disconnect_self owner ws m
        ∙ ap (remove ws) e
        ∙ remove-append_dead delivers ws done wss alive dead))
]

other-send_each :
    (delivers : ℕ → Bool) (owner j : Text) (wss : List ℕ) (m : Connections)
    → (owner == j) ≡ false
    → connections (send_each delivers owner wss m).1 j ≡ connections m j
unfolding send_each
other-send_each delivers owner j [] m ne = refl
other-send_each delivers owner j (ws ∷ wss) m ne = elim (Bool-cases (delivers ws)) [
  | inl works ↦ rw works (other-send_each delivers owner j wss m ne)
  | inr dead ↦ rw dead (
      other-send_each delivers owner j wss (disconnect owner ws m) ne
      ∙ connections-disconnect_ne owner j ws m ne)
]

-- Whatever fails, `send_to_owner` returns. The payload goes out once on each connection of the
-- owner that works, in their order. Afterwards exactly those are registered for the owner, and
-- every other owner has the connections that it had.
pub send_to_owner_lem :
    (delivers : ℕ → Bool) (owner j : Text) (m : Connections)
    → let (sent, m') = send_to_owner delivers owner m in
      (sent ≡ filter delivers (connections m owner))
      × (connections m' owner ≡ filter delivers (connections m owner))
      × ((owner == j) ≡ false → connections m' j ≡ connections m j)
unfolding send_to_owner
send_to_owner_lem delivers owner j m = (
  sent-send_each delivers owner (connections m owner) m,
  left-send_each delivers owner [] (connections m owner) m tt refl,
  other-send_each delivers owner j (connections m owner) m,
)

send_each-IsTidy :
    (delivers : ℕ → Bool) (owner : Text) (wss : List ℕ) (m : Connections)
    → IsTidy m
    → IsTidy (send_each delivers owner wss m).1
unfolding send_each
send_each-IsTidy delivers owner [] m h = h
send_each-IsTidy delivers owner (ws ∷ wss) m h = elim (Bool-cases (delivers ws)) [
  | inl works ↦ rw works (send_each-IsTidy delivers owner wss m h)
  | inr dead ↦
      rw dead (
        send_each-IsTidy delivers owner wss (disconnect owner ws m)
          (disconnect-IsTidy owner ws m h))
]

-- A delivery leaves no owner listed with an empty list.
pub send_to_owner-IsTidy :
    (delivers : ℕ → Bool) (owner : Text) (m : Connections)
    → IsTidy m
    → IsTidy (send_to_owner delivers owner m).1
unfolding send_to_owner
send_to_owner-IsTidy delivers owner m h = send_each-IsTidy delivers owner (connections m owner) m h
