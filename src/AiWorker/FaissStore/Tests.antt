-- ===== src/AiWorker/FaissStore/Tests.antt =====
-- The store over an index that keeps only its ids, at the inputs of its own tests.
use ai_document_analysis.Prelude.{
  ℕ, ◌≡◌, ◌≢◌, ◌≤◌, ◌<◌, refl, ap, none, some, List, [], ◌∷◌, Text, codes, text_eq, length, max,
  All, arith,
}
use ai_document_analysis.AiWorker.FaissStore.{
  accept, load_or_create_index, scan, tag_all, init, save, reload_if_stale, add_loaded,
  search_loaded, add, delete_document, search_store,
}
use ai_document_analysis.AiWorker.FaissStore.Types.{Meta, Files, Store, Hit, Outcome, returned}
use ai_document_analysis.AiWorker.FaissStore.Search.{
  IsVisible, Has, search_store-isolated, search_store_complete,
}
use ai_document_analysis.AiWorker.FaissStore.System.{
  World, IsFrom, start, with_store, adds, Reach, here, next, search_loaded-IsFrom,
  search_store-save,
}
use ai_document_analysis.AiWorker.FaissStore.Reindex.{
  Deletes, IsIndexed, reindex, delete_document-Deletes, reindex-IsIndexed,
}
use ai_document_analysis.AiWorker.FaissStore.IdIndex.{
  id_index, empty_dir, fresh_store, fresh-IsSound,
}

abbrev alice : Text
alice = codes "alice"

abbrev report : Text
report = codes "d1"

abbrev notes : Text
notes = codes "d2"

abbrev two_chunks : Outcome ℕ × Store (List ℕ) × Files (List ℕ)
two_chunks =
    add id_index 5 6 report (codes "x" ∷ codes "y" ∷ []) (1 ∷ 2 ∷ []) alice fresh_store empty_dir

two_chunks_ids : (two_chunks.1.index ≡ 0 ∷ 1 ∷ []) × (two_chunks.1.next_id ≡ 2)
unfolding add init
two_chunks_ids = (refl, refl)

search_store-isolated_example :
    (hits : List (Hit ℕ)) × ((search_store id_index 7 alice 1 none two_chunks.1 two_chunks.2).0
      ≡ returned hits)
    × All (λ h. IsVisible alice none h.meta) hits
    × (length hits ≤ max 1 1)
search_store-isolated_example =
    search_store-isolated id_index 7 alice 1 none two_chunks.1 two_chunks.2 (cc)

abbrev second : Meta
second = record { document_id = report; owner_id = some alice; chunk_index = 1; text = codes "y" }

second_chunk_found :
    (hits : List (Hit ℕ)) × ((search_store id_index 7 alice 5 none two_chunks.1 two_chunks.2).0
      ≡ returned hits)
    × (length hits < 5 → Has second hits)
unfolding add init accept reload_if_stale text_eq tag_all
second_chunk_found =
    search_store_complete id_index 7 alice 5 none two_chunks.1 two_chunks.2 1 second (cc)
      (omega arith) refl

abbrev texts : List Text
texts = codes "x" ∷ codes "y" ∷ []

abbrev after_add : World (List ℕ)
after_add =
    record (with_store 0
      (add_loaded id_index 5 6 report texts (1 ∷ 2 ∷ []) alice ((start id_index).stores 0)
        (start id_index).files).1
      (start id_index)) {
        calls = record { document_id = report; owner = alice; chunks = texts } ∷ [];
      }

Reach-after_add : Reach id_index after_add
Reach-after_add = next here (adds 0 5 6 report texts (1 ∷ 2 ∷ []) alice refl)

two_found : length (search_loaded id_index 7 alice 5 none (after_add.stores 0)) ≡ 2
unfolding add_loaded save search_loaded accept tag_all text_eq load_or_create_index scan
two_found = refl

search_loaded-IsFrom_example :
    All
      (λ h. IsVisible alice none h.meta × IsFrom after_add.calls h.meta)
      (search_loaded id_index 7 alice 5 none (after_add.stores 0))
search_loaded-IsFrom_example =
    search_loaded-IsFrom id_index after_add 0 7 alice 5 none Reach-after_add

zero_ne_five : ◌≢◌ {A = ℕ} 0 5
zero_ne_five = omega arith

saved_store_is_searched :
    let (saver', files') = save id_index 5 6 two_chunks.1 empty_dir in
    (search_store id_index 7 alice 5 none fresh_store files').0
    ≡ (search_store id_index 7 alice 5 none saver' files').0
unfolding init
saved_store_is_searched =
    search_store-save id_index 5 6 two_chunks.1 fresh_store empty_dir 7 alice 5 none
      (λ e. zero_ne_five (ap (λ p. p.0) e))

delete_document-Deletes_example :
    Deletes id_index report alice
      (reload_if_stale id_index empty_dir fresh_store)
      (delete_document id_index 5 6 report alice fresh_store empty_dir)
delete_document-Deletes_example =
    delete_document-Deletes id_index 5 6 report alice fresh_store empty_dir (cc) fresh-IsSound

same_report_twice :
    IsIndexed id_index report alice
      (codes "x" ∷ codes "y" ∷ [])
      (reload_if_stale id_index empty_dir fresh_store)
      (reindex id_index 5 6 7 8 report
        (codes "x" ∷ codes "y" ∷ [])
        (1 ∷ 2 ∷ [])
        alice
        fresh_store
        empty_dir)
same_report_twice =
    reindex-IsIndexed id_index 5 6 7 8 report (codes "x" ∷ codes "y" ∷ []) (1 ∷ 2 ∷ []) alice
      fresh_store empty_dir (cc) refl fresh-IsSound
