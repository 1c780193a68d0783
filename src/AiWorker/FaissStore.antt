-- ===== src/AiWorker/FaissStore.antt =====
-- ai-worker-service/app/vectorstore/faiss_store.py: `FaissStore`, method by method. Each method
-- takes the store of its process and the files that all processes share, and runs under `_lock`,
-- which is the process's own.
-- A document's and an owner's id is its text. FAISS is the parameter `Faiss`.
pub mod Interface
pub mod Types
pub mod Search
pub mod Sources
pub mod Ids
pub mod Chunks
pub mod Consistency
pub mod Processes
pub mod System
pub mod Saved
pub mod Reindex
pub mod Returned
pub mod Found
pub mod IdIndex
mod Tests
use ai_document_analysis.Prelude.{
  ℕ, zero, suc, ◌+◌, Bool, true, false, ◌&&◌, Option, none, some, List, [], ◌∷◌, Text, ◌==◌,
  text-Eq, nat-Eq, nat_eq, leb, length, is_empty, if◌then◌else◌,
}
use ai_document_analysis.Prelude.Dict.{Dict, lookup, insert, erase}
use ai_document_analysis.AiWorker.FaissStore.Interface.{Faiss}
use ai_document_analysis.AiWorker.FaissStore.Types.{
  Meta, MetadataFile, valid, corrupt, Files, Store, Hit, Outcome, returned, value_error,
  assertion_error,
}

abbrev pub contains : Text → List Text → Bool
contains d [] = false
contains d (e ∷ ds) = if e == d then true else contains d ds

-- `np.arange(start, start + count)`
abbrev pub arange : ℕ → ℕ → List ℕ
arange start zero = []
arange start (suc count) = start ∷ arange (suc start) count

-- `meta.get("owner_id") == str(owner_id)`
abbrev pub is_owner : Text → Meta → Bool
is_owner owner meta = elim meta.owner_id [ none ↦ false | some o ↦ o == owner ]

-- `wanted_docs is None or meta["document_id"] in wanted_docs`; `set(document_ids) if
-- document_ids else None` makes both `None` and the empty list no restriction.
abbrev pub is_wanted : Option (List Text) → Meta → Bool
is_wanted none meta = true
is_wanted (some []) meta = true
is_wanted (some (d ∷ ds)) meta = contains meta.document_id (d ∷ ds)

-- The `continue`s of the loop of `search`: the metadata of a candidate that is a result.
pub accept : Dict ℕ Meta → Text → Option (List Text) → Option ℕ → Option Meta
accept metadata owner docs none = none
accept metadata owner docs (some chunk_id) = elim (lookup chunk_id metadata) [
  | none ↦ none
  | some meta ↦ if is_owner owner meta && is_wanted docs meta then some meta else none
]

-- The loop of `search` over the candidates, with `found` results so far. The `break` comes after
-- the append.
pub scan :
    {Score : Type 0} → (Option ℕ → Option Meta) → ℕ → ℕ → List (Score × Option ℕ) → List (Hit Score)
scan accepted top_k found [] = []
scan accepted top_k found ((score, chunk_id) ∷ hits) =
    let skipped = scan accepted top_k found hits in
    let rest = scan accepted top_k (suc found) hits in
    elim (accepted chunk_id) [
      | none ↦ skipped
      | some meta ↦
          record { meta = meta; score = score } ∷ (if leb top_k (suc found) then [] else rest)
    ]

-- The loop of `add` over `enumerate(zip(ids, chunks))`.
unfoldable pub tag_all : Text → Text → ℕ → List ℕ → List Text → Dict ℕ Meta → Dict ℕ Meta
tag_all document_id owner offset (chunk_id ∷ ids) (text ∷ chunks) metadata =
    tag_all document_id owner (suc offset) ids chunks (
      insert chunk_id
        (record {
          document_id = document_id;
          owner_id = some owner;
          chunk_index = offset;
          text = text;
        })
        metadata)
tag_all document_id owner offset ids chunks metadata = metadata

-- `meta.get("document_id") == document_id and meta.get("owner_id") == str(owner_id)`
abbrev pub is_chunk_of : Text → Text → Meta → Bool
is_chunk_of document_id owner meta = meta.document_id == document_id && is_owner owner meta

-- `matching_ids`
unfoldable pub matching_ids : Text → Text → Dict ℕ Meta → List ℕ
matching_ids document_id owner [] = []
matching_ids document_id owner ((cid, meta) ∷ metadata) =
    let rest = matching_ids document_id owner metadata in
    if is_chunk_of document_id owner meta then cid ∷ rest else rest

-- `for cid in matching_ids: del self._metadata[cid]`
pub erase_all : List ℕ → Dict ℕ Meta → Dict ℕ Meta
erase_all [] metadata = metadata
erase_all (cid ∷ cids) metadata = erase_all cids (erase cid metadata)

-- `current != self._loaded_mtimes`, negated
abbrev pub same_mtimes : ℕ × ℕ → ℕ × ℕ → Bool
same_mtimes (a, b) (c, d) = nat_eq a c && nat_eq b d

module _ (F : Faiss) where
  open F use {Vector, Score, Index, create, ntotal, add_with_ids, remove_ids, search}

  -- `(_mtime(INDEX_PATH), _mtime(METADATA_PATH))`: 0 for a file that is not there
  unfoldable pub mtimes : Files Index → ℕ × ℕ
  mtimes files = (
    elim files.index_file [ none ↦ 0 | some (index, mtime) ↦ mtime ],
    elim files.metadata_file [ none ↦ 0 | some (content, mtime) ↦ mtime ],
  )

  unfoldable pub load_or_create_index : Files Index → Index
  load_or_create_index files = elim files.index_file [ none ↦ create | some (index, mtime) ↦ index ]

  -- `_load_metadata`: a missing file changes nothing; where one of the exceptions is raised that it
  -- catches, it starts fresh.
  unfoldable pub load_metadata : Files Index → Store Index → Store Index
  load_metadata files s = elim files.metadata_file [
    | none ↦ s
    | some (valid metadata next_id, mtime) ↦ record s { metadata = metadata; next_id = next_id }
    | some (corrupt, mtime) ↦ record s { metadata = []; next_id = 0 }
  ]

  -- `__init__`
  unfoldable pub init : Files Index → Store Index
  unfolding mtimes load_or_create_index load_metadata
  init files = load_metadata files (record {
    next_id = 0;
    metadata = [];
    index = load_or_create_index files;
    loaded_mtimes = mtimes files;
  })

  -- `_save`, where the index file is written at the time `t` and the metadata file at `u`.
  unfoldable pub save : ℕ → ℕ → Store Index → Files Index → Store Index × Files Index
  unfolding mtimes
  save t u s files =
      let files' : Files Index = record {
        index_file = some (s.index, t);
        metadata_file = some (valid s.metadata s.next_id, u);
      } in
      (record s { loaded_mtimes = mtimes files' }, files')

  unfoldable pub reload_if_stale : Files Index → Store Index → Store Index
  unfolding mtimes load_or_create_index load_metadata
  reload_if_stale files s =
      if same_mtimes (mtimes files) s.loaded_mtimes
      then s
      else load_metadata files
          (record s { index = load_or_create_index files; loaded_mtimes = mtimes files })

  -- `add` after the reload.
  unfoldable pub add_loaded :
      ℕ
      → ℕ
      → Text
      → List Text
      → List Vector
      → Text
      → Store Index
      → Files Index
      → Outcome ℕ × Store Index × Files Index
  unfolding save
  add_loaded t u document_id chunks vectors owner s files =
      let ids = arange s.next_id (length chunks) in
      elim (add_with_ids s.index vectors ids) [
        | none ↦ (assertion_error, s, files)
        | some index ↦
            let (s', files') =
              save t u
                (record s {
                  index = index;
                  metadata = tag_all document_id owner 0 ids chunks s.metadata;
                  next_id = s.next_id + length chunks;
                })
                files in
            (returned (length chunks), s', files')
      ]

  unfoldable pub add :
      ℕ
      → ℕ
      → Text
      → List Text
      → List Vector
      → Text
      → Store Index
      → Files Index
      → Outcome ℕ × Store Index × Files Index
  unfolding add_loaded reload_if_stale
  add t u document_id chunks vectors owner s files =
      if is_empty owner
      then (value_error, s, files)
      else if is_empty chunks
      then (returned 0, s, files)
      else add_loaded t u document_id chunks vectors owner (reload_if_stale files s) files

  -- `search` after the reload.
  pub search_loaded : Vector → Text → ℕ → Option (List Text) → Store Index → List (Hit Score)
  search_loaded query owner top_k docs s =
      if nat_eq (ntotal s.index) 0
      then []
      else scan (accept s.metadata owner docs) top_k 0 (search s.index query (ntotal s.index))

  pub search_store :
      Vector
      → Text
      → ℕ
      → Option (List Text)
      → Store Index
      → Files Index
      → Outcome (List (Hit Score)) × Store Index
  unfolding search_loaded reload_if_stale
  search_store query owner top_k docs s files =
      if is_empty owner
      then (value_error, s)
      else let s' = reload_if_stale files s in
        (returned (search_loaded query owner top_k docs s'), s')

  -- `delete_document` after the reload.
  unfoldable pub delete_loaded :
      ℕ → ℕ → Text → Text → Store Index → Files Index → Outcome ℕ × Store Index × Files Index
  unfolding save
  delete_loaded t u document_id owner s files =
      let ids = matching_ids document_id owner s.metadata in
      if is_empty ids
      then (returned 0, s, files)
      else let (s', files') =
          save t u
            (record s { index = remove_ids s.index ids; metadata = erase_all ids s.metadata })
            files in
        (returned (length ids), s', files')

  unfoldable pub delete_document :
      ℕ → ℕ → Text → Text → Store Index → Files Index → Outcome ℕ × Store Index × Files Index
  unfolding delete_loaded reload_if_stale
  delete_document t u document_id owner s files =
      if is_empty owner
      then (value_error, s, files)
      else delete_loaded t u document_id owner (reload_if_stale files s) files
