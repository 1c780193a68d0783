-- ===== src/AiWorker/FaissStore/Sources.antt =====
-- Where the results of `search` come from.
use ai_document_analysis.Prelude.{
  ℕ, ◌≡◌, ◌≢◌, refl, inl, inr, false, Option, none, some, List, [], Text, nat_eq, max, All,
  is_empty, Option-cases, Bool-cases, arith, nat-Eq, text_eq, text_eq_iff, true, ◌∷◌, text-Eq,
}
use ai_document_analysis.Prelude.Dict.{Dict, lookup}
use ai_document_analysis.AiWorker.FaissStore.Chunks.{texts_of}
use ai_document_analysis.AiWorker.FaissStore.{
  is_owner, is_chunk_of, accept, search_loaded, search_store, reload_if_stale,
}
use ai_document_analysis.AiWorker.FaissStore.Interface.{Faiss}
use ai_document_analysis.AiWorker.FaissStore.Types.{Meta, Files, Store, Hit, returned}
use ai_document_analysis.AiWorker.FaissStore.Search.{
  IsVisible, accept-IsVisible, All-take, All-matches, scan_lem,
}

-- An entry of the metadata that its owner may see.
pub record IsSource (owner : Text) (docs : Option (List Text)) (metadata : Dict ℕ Meta)
    (meta : Meta) : Type 0 where
  pub chunk_id : ℕ
  pub stored : lookup chunk_id metadata ≡ some meta
  pub visible : IsVisible owner docs meta

accept-IsSource :
    (metadata : Dict ℕ Meta) (owner : Text) (docs : Option (List Text)) (i : Option ℕ) (meta : Meta)
    → accept metadata owner docs i ≡ some meta
    → IsSource owner docs metadata meta
unfolding accept
accept-IsSource metadata owner docs none meta e = cc
accept-IsSource metadata owner docs (some i) meta e = elim (Option-cases (lookup i metadata)) [
  | inl unknown ↦ absurd (ground arith)
  | inr (m, there) ↦ record {
    chunk_id = i;
    stored = ground arith;
    visible = accept-IsVisible metadata owner docs (some i) meta e;
  }
]

module _ (F : Faiss) (query : F.Vector) (owner : Text) (top_k : ℕ) (docs : Option (List Text)) where
  open F use {Score, Index, ntotal, search}

  search_loaded-IsSource :
      (s : Store Index)
      → All (λ h. IsSource owner docs s.metadata h.meta) (search_loaded F query owner top_k docs s)
  unfolding search_loaded
  search_loaded-IsSource s =
      let hits = search s.index query (ntotal s.index) in
      elim (Bool-cases (nat_eq (ntotal s.index) 0)) [
        | inl empty ↦ rw empty tt
        | inr stored ↦
            rw (stored, scan_lem (accept s.metadata owner docs) top_k hits)
              (All-take _ (max 1 top_k) _ (
                All-matches (accept s.metadata owner docs) (IsSource owner docs s.metadata)
                  (accept-IsSource s.metadata owner docs) hits))
      ]

  pub search_store-IsSource :
      (s : Store Index) (files : Files Index)
      → owner ≢ []
      → (hits : List (Hit Score)) × ((search_store F query owner top_k docs s files).0
          ≡ returned hits)
        × All (λ h. IsSource owner docs (reload_if_stale F files s).metadata h.meta) hits
  unfolding search_store
  search_store-IsSource s files known =
      let some_id : is_empty owner ≡ false = ground arith in
      let s' = reload_if_stale F files s in
      (search_loaded F query owner top_k docs s', rw some_id refl, search_loaded-IsSource s')

-- Where an owner has no text of a document, no entry is a chunk of it.
lookup_unmatched :
    (document_id owner : Text) (d : Dict ℕ Meta) (i : ℕ) (meta : Meta)
    → texts_of document_id owner d ≡ []
    → lookup i d ≡ some meta
    → is_chunk_of document_id owner meta ≡ false
unfolding texts_of
lookup_unmatched document_id owner [] i meta gone there = cc
lookup_unmatched document_id owner ((j, m) ∷ d) i meta gone there =
    ground (arith, lookup_unmatched document_id owner d i meta)

source_unmatched :
    (document_id owner : Text) (docs : Option (List Text)) (d : Dict ℕ Meta) (meta : Meta)
    → texts_of document_id owner d ≡ []
    → IsSource owner docs d meta
    → meta.document_id ≢ document_id
source_unmatched document_id owner docs d meta gone source same =
    let other = lookup_unmatched document_id owner d source.chunk_id meta gone source.stored in
    let owned : is_owner owner meta ≡ true =
      rw source.visible.owned ((text_eq_iff owner owner).1 refl) in
    let here : text_eq meta.document_id document_id ≡ true =
      (text_eq_iff meta.document_id document_id).1 same in
    ground (arith, other, owned, here)

All-unmatched :
    {Score : Type 0} (document_id owner : Text) (docs : Option (List Text)) (d : Dict ℕ Meta)
    (hits : List (Hit Score))
    → texts_of document_id owner d ≡ []
    → All (λ h. IsSource owner docs d h.meta) hits
    → All (λ h. h.meta.document_id ≢ document_id) hits
All-unmatched document_id owner docs d [] gone all = tt
All-unmatched document_id owner docs d (h ∷ hits) gone all = (
  source_unmatched document_id owner docs d h.meta gone all.0,
  All-unmatched document_id owner docs d hits gone all.1,
)

-- A search of a store that is up to date and has nothing of a document finds nothing of it.
pub search_store-gone :
    (F : Faiss) (query : F.Vector) (owner : Text) (top_k : ℕ) (docs : Option (List Text))
    (s : Store F.Index) (files : Files F.Index) (document_id : Text)
    → owner ≢ []
    → reload_if_stale F files s ≡ s
    → texts_of document_id owner s.metadata ≡ []
    → (hits : List (Hit F.Score)) × ((search_store F query owner top_k docs s files).0
        ≡ returned hits)
      × All (λ h. h.meta.document_id ≢ document_id) hits
search_store-gone F query owner top_k docs s files document_id known current gone =
    let (hits, e, all) = search_store-IsSource F query owner top_k docs s files known in
    (hits, e, All-unmatched document_id owner docs s.metadata hits gone (rw current at all))
