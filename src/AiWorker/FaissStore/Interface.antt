-- ===== src/AiWorker/FaissStore/Interface.antt =====
-- What the code relies on of FAISS: `IndexIDMap` over `IndexFlatIP`, with the calls that it makes.
use ai_document_analysis.Prelude.{
  ℕ, suc, ◌≡◌, ◌≢◌, ◌≤◌, Bool, not, Option, none, some, List, [], ◌∷◌, ◌++◌, nat_eq, length, filter,
  if◌then◌else◌,
}

abbrev pub count : ℕ → List ℕ → ℕ
count i [] = 0
count i (j ∷ l) = if nat_eq i j then suc (count i l) else count i l

abbrev pub has : List ℕ → ℕ → Bool
has l i = not (nat_eq (count i l) 0)

-- The ids among search candidates; FAISS pads with -1, which stands here as `none`.
abbrev pub found_ids {ℓ} : {S : Type ℓ} → List (S × Option ℕ) → List ℕ
found_ids [] = []
found_ids ((s, none) ∷ l) = found_ids l
found_ids ((s, some i) ∷ l) = i ∷ found_ids l

-- `ids` lists what an index holds, and the laws are FAISS's documentation of each call: adding
-- stores one vector under each id, and is refused if there are not as many of both; removing drops
-- every vector with one of the ids; an exact search for as many candidates as there are vectors
-- meets every vector once.
pub record Faiss : Type 1 where
  pub Vector : Type 0
  pub Score : Type 0
  pub Index : Type 0
  pub create : Index
  pub ntotal : Index → ℕ
  pub add_with_ids : Index → List Vector → List ℕ → Option Index
  pub remove_ids : Index → List ℕ → Index
  pub search : Index → Vector → ℕ → List (Score × Option ℕ)
  pub ids : Index → List ℕ
  pub ids-create : ids create ≡ []
  pub ntotal_lem : (x : Index) → ntotal x ≡ length (ids x)
  pub ids-add :
      (x : Index) (vs : List Vector) (is : List ℕ)
      → length vs ≡ length is
      → (y : Index) × (add_with_ids x vs is ≡ some y) × (ids y ≡ ids x ++ is)
  pub add_refused :
      (x : Index) (vs : List Vector) (is : List ℕ)
      → length vs ≢ length is
      → add_with_ids x vs is ≡ none
  pub ids-remove :
      (x : Index) (is : List ℕ) → ids (remove_ids x is) ≡ filter (λ i. not (has is i)) (ids x)
  pub search_exact :
      (x : Index) (q : Vector) (k i : ℕ)
      → ntotal x ≤ k
      → count i (found_ids (search x q k)) ≡ count i (ids x)
