-- ===== src/AiWorker/FaissStore/Found.antt =====
-- A search finds the texts that a document has in the store.
use ai_document_analysis.Prelude.{
  ℕ, ◌<◌, ◌≡◌, ◌≢◌, inl, inr, true, Option, none, some, List, [], ◌∷◌, Text, text_eq, text_eq_iff,
  nat-Eq, length, Bool-cases, arith,
}
use ai_document_analysis.Prelude.Dict.{Dict, lookup}
use ai_document_analysis.Prelude.Order.{is_in}
use ai_document_analysis.AiWorker.FaissStore.{
  is_chunk_of, is_owner, is_wanted, accept, reload_if_stale, search_store,
}
use ai_document_analysis.AiWorker.FaissStore.Interface.{Faiss, count}
use ai_document_analysis.AiWorker.FaissStore.Types.{Meta, Files, Store, Hit, returned}
use ai_document_analysis.AiWorker.FaissStore.Ids.{IsDistinct}
use ai_document_analysis.AiWorker.FaissStore.Chunks.{texts_of}
use ai_document_analysis.AiWorker.FaissStore.Consistency.{IsConsistent}
use ai_document_analysis.AiWorker.FaissStore.Processes.{IsSound, reload-IsSound}
use ai_document_analysis.AiWorker.FaissStore.Returned.{current_texts}
use ai_document_analysis.AiWorker.FaissStore.Search.{Has, search_store_complete}

-- An entry with a text of the document.
pub record Entry (id owner text : Text) (d : Dict ℕ Meta) : Type 0 where
  pub key : ℕ
  pub meta : Meta
  pub stored : lookup key d ≡ some meta
  pub own : is_chunk_of id owner meta ≡ true
  pub same : meta.text ≡ text

behind :
    (id owner text : Text) (i : ℕ) (meta : Meta) (d : Dict ℕ Meta)
    → lookup i d ≡ none
    → Entry id owner text d
    → Entry id owner text ((i, meta) ∷ d)
behind id owner text i meta d fresh e = record {
  key = e.key;
  meta = e.meta;
  stored = ground (arith, fresh, e.stored);
  own = e.own;
  same = e.same;
}

entry_of :
    (id owner text : Text) (d : Dict ℕ Meta)
    → IsDistinct d
    → is_in text (texts_of id owner d) ≡ true
    → Entry id owner text d
unfolding texts_of
entry_of id owner text [] h there = cc there
entry_of id owner text ((i, meta) ∷ d) h there =
    let rest : is_in text (texts_of id owner d) ≡ true → Entry id owner text d =
      λ r. entry_of id owner text d h.1 r in
    elim (Bool-cases (is_chunk_of id owner meta)) [
      | inr other ↦ behind id owner text i meta d h.0 (rest (ground (arith, there, other)))
      | inl own ↦ elim (Bool-cases (text_eq meta.text text)) [
        | inl same ↦ record {
          key = i;
          meta = meta;
          stored = ground arith;
          own = own;
          same = (text_eq_iff meta.text text).0 same;
        }
        | inr differs ↦
            behind id owner text i meta d h.0 (rest (ground (arith, there, own, differs)))
      ]
    ]

accept-stored :
    (id owner : Text) (docs : Option (List Text)) (i : ℕ) (meta : Meta) (d : Dict ℕ Meta)
    → lookup i d ≡ some meta
    → is_chunk_of id owner meta ≡ true
    → is_wanted docs meta ≡ true
    → accept d owner docs (some i) ≡ some meta
unfolding accept
accept-stored id owner docs i meta d stored own wanted =
    let owned : is_owner owner meta ≡ true = ground (arith, own) in
    ground (arith, stored, owned, wanted)

module _ (F : Faiss) where
  open F use {Vector, Score, Index, ids}

  -- A hit with a text of the document.
  pub record Finds (id owner text : Text) (hits : List (Hit Score)) : Type 0 where
    pub meta : Meta
    pub own : is_chunk_of id owner meta ≡ true
    pub same : meta.text ≡ text
    pub among : Has meta hits

  -- A text that a document has in the store is found by every search of its owner that asks for
  -- this document, unless `top_k` other chunks are.
  pub search_store-Finds :
      (id owner text : Text) (query : Vector) (top_k : ℕ) (docs : Option (List Text))
      (s : Store Index) (files : Files Index)
      → owner ≢ []
      → IsSound F s files
      → is_in text (current_texts F id owner s files) ≡ true
      → ((meta : Meta) → meta.document_id ≡ id → is_wanted docs meta ≡ true)
      → (hits : List (Hit Score)) × ((search_store F query owner top_k docs s files).0
          ≡ returned hits)
        × (length hits < top_k → Finds id owner text hits)
  search_store-Finds id owner text query top_k docs s files known sound there asked =
      let h : IsConsistent F (reload_if_stale F files s) =
        (reload-IsSound F s files sound).consistent in
      let e = entry_of id owner text (reload_if_stale F files s).metadata h.distinct there in
      let of_document : e.meta.document_id ≡ id =
        ground (arith, e.own, text_eq_iff e.meta.document_id id) in
      let indexed : 0 < count e.key (ids (reload_if_stale F files s).index) =
        ground (arith, h.indexed e.key, e.stored) in
      let (hits, returns, has) =
        search_store_complete F query owner top_k docs s files e.key e.meta known indexed
          (accept-stored id owner docs e.key e.meta _ e.stored e.own (asked e.meta of_document)) in
      (
        hits,
        returns,
        λ short. record { meta = e.meta; own = e.own; same = e.same; among = has short },
      )
