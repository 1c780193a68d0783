-- ===== src/AiWorker/FaissStore/IdIndex.antt =====
-- An index that keeps only its ids, for the examples. It has the laws that the interface asks for.
use ai_document_analysis.Prelude.{
  ℕ, ◌≡◌, ◌≢◌, refl, not, Option, none, some, List, [], ◌∷◌, ◌++◌, map, nat_eq, length, filter,
  arith, if◌then◌else◌,
}
use ai_document_analysis.AiWorker.FaissStore.Saved.{IsSaved}
use ai_document_analysis.AiWorker.FaissStore.{reload_if_stale, init}
use ai_document_analysis.AiWorker.FaissStore.Interface.{Faiss, count, has, found_ids}
use ai_document_analysis.AiWorker.FaissStore.Types.{Files, Store}
use ai_document_analysis.AiWorker.FaissStore.Processes.{IsSound}

abbrev pub all_ids : List ℕ → List (ℕ × Option ℕ)
all_ids = map (λ i. (0, some i))

pub count-all_ids : (i : ℕ) (x : List ℕ) → count i (found_ids (all_ids x)) ≡ count i x
count-all_ids i [] = refl
count-all_ids i (j ∷ x) = ground (arith, count-all_ids i x)

abbrev pub add_ids : List ℕ → List ℕ → List ℕ → Option (List ℕ)
add_ids x vs is = if nat_eq (length vs) (length is) then some (x ++ is) else none

pub add_ids_paired :
    (x vs is : List ℕ)
    → length vs ≡ length is
    → (y : List ℕ) × (add_ids x vs is ≡ some y) × (y ≡ x ++ is)
add_ids_paired x vs is h = (x ++ is, ground arith, refl)

pub add_ids_refused : (x vs is : List ℕ) → length vs ≢ length is → add_ids x vs is ≡ none
add_ids_refused x vs is h = ground arith

abbrev pub id_index : Faiss
id_index = record {
  Vector = ℕ;
  Score = ℕ;
  Index = List ℕ;
  create = [];
  ntotal = length;
  add_with_ids = add_ids;
  remove_ids = λ x is. filter (λ i. not (has is i)) x;
  search = λ x q k. all_ids x;
  ids = λ x. x;
  ids-create = refl;
  ntotal_lem = λ x. refl;
  ids-add = add_ids_paired;
  add_refused = add_ids_refused;
  ids-remove = λ x is. refl;
  search_exact = λ x q k i h. count-all_ids i x;
}

abbrev pub empty_dir : Files (List ℕ)
empty_dir = record { index_file = none; metadata_file = none }

abbrev pub fresh_store : Store (List ℕ)
fresh_store = init id_index empty_dir

pub fresh-IsSound : IsSound id_index fresh_store empty_dir
unfolding init
fresh-IsSound = record {
  consistent = record { distinct = tt; fresh = λ i h. refl; indexed = λ i. refl };
  saved = refl;
}

pub fresh-IsSaved : IsSaved id_index fresh_store empty_dir
unfolding init reload_if_stale
fresh-IsSaved = record { same = refl }
