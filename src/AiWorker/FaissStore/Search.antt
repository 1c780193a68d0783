-- ===== src/AiWorker/FaissStore/Search.antt =====
-- What `search` returns: the loop with its `break` against the list of all matches, the isolation
-- of owners, and that nothing is left out.
use ai_document_analysis.Prelude.{
  ℕ, zero, suc, ◌+◌, ◌-◌, ◌≡◌, ◌≢◌, ◌≤◌, ◌<◌, refl, sym, ap, ◌∙◌, inl, inr, ◌⊎◌, true, false,
  Option, none, some, List, [], ◌∷◌, Text, text_eq_iff, text-Eq, nat-Eq, nat_eq, length, take, max,
  All, is_empty, Option-cases, Bool-cases, arith, length-take, take_of_length-le,
}
use ai_document_analysis.Prelude.Dict.{Dict, lookup}
use ai_document_analysis.AiWorker.FaissStore.{
  is_wanted, accept, scan, search_loaded, search_store, reload_if_stale,
}
use ai_document_analysis.AiWorker.FaissStore.Interface.{Faiss, count, found_ids}
use ai_document_analysis.AiWorker.FaissStore.Types.{Meta, Files, Store, Hit, returned, value_error}

module _ {Score : Type 0} (accepted : Option ℕ → Option Meta) where
  -- Every accepted candidate, in the order of the candidates.
  pub matches : List (Score × Option ℕ) → List (Hit Score)
  matches [] = []
  matches ((score, chunk_id) ∷ hits) =
      let rest = matches hits in
      elim (accepted chunk_id) [
        | none ↦ rest
        | some meta ↦ record { meta = meta; score = score } ∷ rest
      ]

  -- With `left` results still to come, the loop returns as many matches.
  scan-eq-take :
      (top_k found left : ℕ) (hits : List (Score × Option ℕ))
      → suc (found + left) ≡ max 1 top_k
      → scan accepted top_k found hits ≡ take (suc left) (matches hits)
  unfolding scan matches
  scan-eq-take top_k found left [] e = refl
  scan-eq-take top_k found zero ((score, chunk_id) ∷ hits) e =
      ground (arith, scan-eq-take top_k found zero hits e)
  scan-eq-take top_k found (suc left) ((score, chunk_id) ∷ hits) e =
      ground (
        arith,
        scan-eq-take top_k found (suc left) hits e,
        scan-eq-take top_k (suc found) left hits,
      )

  -- The loop returns the first matches, at most `top_k` of them (one, if `top_k` is 0).
  pub scan_lem :
      (top_k : ℕ) (hits : List (Score × Option ℕ))
      → scan accepted top_k 0 hits ≡ take (max 1 top_k) (matches hits)
  scan_lem top_k hits =
      let e : max 1 top_k ≡ suc (max 1 top_k - 1) = omega arith in
      scan-eq-take top_k 0 (max 1 top_k - 1) hits (omega arith)
      ∙ ap (λ n. take n (matches hits)) (sym e)

  pub All-matches :
      (P : Meta → Type 0)
      → ((i : Option ℕ) (meta : Meta) → accepted i ≡ some meta → P meta)
      → (hits : List (Score × Option ℕ)) → All (λ h. P h.meta) (matches hits)
  unfolding matches
  All-matches P h [] = tt
  All-matches P h ((score, i) ∷ hits) = elim (Option-cases (accepted i)) [
    | inl skipped ↦ rw (skipped, matches) (All-matches P h hits)
    | inr (meta, taken) ↦ rw (taken, matches) (h i meta taken, All-matches P h hits)
  ]

-- A stored chunk is among the results.
abbrev pub Has : {Score : Type 0} → Meta → List (Hit Score) → Type 0
Has m [] = ⊥
Has m (h ∷ hits) = (h.meta ≡ m) ⊎ Has m hits

module _ {Score : Type 0} where
  pub All-take :
      (P : Hit Score → Type 0) (n : ℕ) (hits : List (Hit Score)) → All P hits → All P (take n hits)
  All-take P zero hits h = tt
  All-take P (suc n) [] h = tt
  All-take P (suc n) (x ∷ hits) h = (h.0, All-take P n hits h.1)

  Has-matches :
      (accepted : Option ℕ → Option Meta) (i : ℕ) (meta : Meta) (hits : List (Score × Option ℕ))
      → accepted (some i) ≡ some meta
      → 0 < count i (found_ids hits)
      → Has meta (matches accepted hits)
  unfolding matches
  Has-matches accepted i meta [] e h = absurd (omega arith)
  Has-matches accepted i meta ((score, none) ∷ hits) e h =
      ground (arith, Has-matches accepted i meta hits)
  Has-matches accepted i meta ((score, some j) ∷ hits) e h =
      ground (arith, Has-matches accepted i meta hits)

-- What `search` may return to an owner with a restriction to documents.
pub record IsVisible (owner : Text) (docs : Option (List Text)) (meta : Meta) : Type 0 where
  pub owned : meta.owner_id ≡ some owner
  pub wanted : is_wanted docs meta ≡ true

pub accept-IsVisible :
    (metadata : Dict ℕ Meta) (owner : Text) (docs : Option (List Text)) (i : Option ℕ) (meta : Meta)
    → accept metadata owner docs i ≡ some meta
    → IsVisible owner docs meta
unfolding accept
accept-IsVisible metadata owner docs none meta e = cc
accept-IsVisible metadata owner docs (some i) meta e = elim (Option-cases (lookup i metadata)) [
  | inl unknown ↦ absurd (ground arith)
  | inr (m, stored) ↦ elim (Option-cases m.owner_id) [
    | inl legacy ↦ absurd (ground arith)
    | inr (o, owned) ↦ ground (arith, text_eq_iff o owner)
  ]
]

count-le-length : (i : ℕ) (l : List ℕ) → count i l ≤ length l
count-le-length i [] = omega arith
count-le-length i (j ∷ l) = ground (arith, count-le-length i l)

module _ (F : Faiss) where
  open F use {Vector, Score, Index, ntotal, search, ids, ntotal_lem, search_exact}

  module _ (query : Vector) (owner : Text) (top_k : ℕ) (docs : Option (List Text))
      (s : Store Index) where
    abbrev candidates : List (Score × Option ℕ)
    candidates = search s.index query (ntotal s.index)

    -- What holds of every accepted entry holds of every result.
    pub All-search_loaded :
        (P : Meta → Type 0)
        → ((i : Option ℕ) (meta : Meta) → accept s.metadata owner docs i ≡ some meta → P meta)
        → All (λ h. P h.meta) (search_loaded F query owner top_k docs s)
    unfolding search_loaded
    All-search_loaded P each = elim (Bool-cases (nat_eq (ntotal s.index) 0)) [
      | inl none_stored ↦ rw none_stored tt
      | inr stored ↦
          rw (stored, scan_lem (accept s.metadata owner docs) top_k candidates)
            (All-take _ (max 1 top_k) _
              (All-matches (accept s.metadata owner docs) P each candidates))
    ]

    search_loaded-IsVisible :
        All (λ h. IsVisible owner docs h.meta) (search_loaded F query owner top_k docs s)
    search_loaded-IsVisible =
        All-search_loaded (IsVisible owner docs) (accept-IsVisible s.metadata owner docs)

    length-search_loaded-le : length (search_loaded F query owner top_k docs s) ≤ max 1 top_k
    unfolding search_loaded
    length-search_loaded-le = elim (Bool-cases (nat_eq (ntotal s.index) 0)) [
      | inl none_stored ↦ rw none_stored (omega arith)
      | inr stored ↦
          rw (stored, scan_lem (accept s.metadata owner docs) top_k candidates)
            (omega (
              arith,
              length-take (max 1 top_k) (matches (accept s.metadata owner docs) candidates),
            ))
    ]

    stored_found :
        (i : ℕ) (meta : Meta)
        → 0 < count i (ids s.index)
        → accept s.metadata owner docs (some i) ≡ some meta
        → length (search_loaded F query owner top_k docs s) < top_k
        → Has meta (search_loaded F query owner top_k docs s)
    unfolding search_loaded
    stored_found i meta there visible short =
        let stored : nat_eq (ntotal s.index) 0 ≡ false =
          ground (arith, ntotal_lem s.index, count-le-length i (ids s.index)) in
        let all = matches (accept s.metadata owner docs) candidates in
        let e = scan_lem (accept s.metadata owner docs) top_k candidates in
        let few : length (take (max 1 top_k) all) < top_k = rw (stored, e) at short in
        let whole : take (max 1 top_k) all ≡ all =
          take_of_length-le (max 1 top_k) all (omega (arith, few, length-take (max 1 top_k) all)) in
        rw (stored, e, whole)
          (Has-matches (accept s.metadata owner docs) i meta candidates visible
            (omega (arith, there, search_exact s.index query (ntotal s.index) i)))

  module _ (query : Vector) (owner : Text) (top_k : ℕ) (docs : Option (List Text)) where
    -- For a caller with an id `search` returns, whatever the store and the index hold, where an
    -- index file that is there can be read, and metadata.json is not there, holds what `_save`
    -- writes, or is a text for which one of the exceptions is raised that `_load_metadata` catches.
    -- Each result belongs to the caller and to one of the documents asked for, where any are
    -- named. There are at most `top_k` results, or one if `top_k` is 0.
    pub search_store-isolated :
        (s : Store Index) (files : Files Index)
        → owner ≢ []
        → (hits : List (Hit Score)) × ((search_store F query owner top_k docs s files).0
            ≡ returned hits)
          × All (λ h. IsVisible owner docs h.meta) hits
          × (length hits ≤ max 1 top_k)
    unfolding search_store
    search_store-isolated s files known =
        let some_id : is_empty owner ≡ false = ground arith in
        let s' = reload_if_stale F files s in
        (
          search_loaded F query owner top_k docs s',
          rw some_id,
          search_loaded-IsVisible query owner top_k docs s',
          length-search_loaded-le query owner top_k docs s',
        )

    -- Nothing of the caller's is left out: a chunk that is in the index and visible to the caller
    -- is among the results, unless `top_k` others are.
    pub search_store_complete :
        (s : Store Index) (files : Files Index) (i : ℕ) (meta : Meta)
        → owner ≢ []
        → 0 < count i (ids (reload_if_stale F files s).index)
        → accept (reload_if_stale F files s).metadata owner docs (some i) ≡ some meta
        → (hits : List (Hit Score)) × ((search_store F query owner top_k docs s files).0
            ≡ returned hits)
          × (length hits < top_k → Has meta hits)
    unfolding search_store
    search_store_complete s files i meta known there visible =
        let some_id : is_empty owner ≡ false = ground arith in
        let s' = reload_if_stale F files s in
        (
          search_loaded F query owner top_k docs s',
          rw some_id,
          stored_found query owner top_k docs s' i meta there visible,
        )

-- Without an owner `search` is refused, before it looks at the store or the files.
pub search_store_unowned :
    (F : Faiss) (query : F.Vector) (top_k : ℕ) (docs : Option (List Text)) (s : Store F.Index)
    (files : Files F.Index)
    → search_store F query [] top_k docs s files ≡ (value_error, s)
unfolding search_store
search_store_unowned F query top_k docs s files = refl
