-- ===== src/AiWorker/FaissStore/System.antt =====
-- Any number of processes over one STORE_DIR. Each has a `_lock` of its own, so their calls overlap:
-- a step is one reading of a file, one change in memory or one writing of a file, of any process.
use ai_document_analysis.Prelude.{
  ℕ, suc, subst, is_empty, ◌≡◌, ◌≢◌, refl, inl, inr, ◌⊎◌, true, false, Option, none, some, List, [],
  ◌∷◌, Text, nat-Eq, nat_eq, length, All, arith, Bool-cases, Option-cases, if◌then◌else◌,
}
use ai_document_analysis.Prelude.Dict.{Dict, lookup, insert, erase}
use ai_document_analysis.AiWorker.FaissStore.{
  same_mtimes, arange, accept, tag_all, matching_ids, erase_all, mtimes, load_or_create_index,
  load_metadata, save, add_loaded, delete_loaded, search_loaded, search_store,
}
use ai_document_analysis.AiWorker.FaissStore.Interface.{Faiss}
use ai_document_analysis.AiWorker.FaissStore.Search.{IsVisible, accept-IsVisible, All-search_loaded}
use ai_document_analysis.AiWorker.FaissStore.Types.{
  Meta, MetadataFile, valid, corrupt, Files, Store,
}

-- What a call of `add` was given.
pub record Added : Type 0 where
  pub document_id : Text
  pub owner : Text
  pub chunks : List Text

abbrev pub Among : {A : Type 0} → A → List A → Type 0
Among a [] = ⊥
Among a (b ∷ bs) = (b ≡ a) ⊎ Among a bs

-- An entry that one of the calls made.
pub record IsFrom (calls : List Added) (meta : Meta) : Type 0 where
  pub call : Added
  pub made : Among call calls
  pub document : meta.document_id ≡ call.document_id
  pub owned : meta.owner_id ≡ some call.owner
  pub chunk : Among meta.text call.chunks

abbrev pub AllFrom : List Added → Dict ℕ Meta → Type 0
AllFrom calls metadata = All (λ e. IsFrom calls e.1) metadata

pub record World (Index : Type 0) : Type 0 where
  pub stores : ℕ → Store Index
  pub files : Files Index
  pub calls : List Added

abbrev pub with_store : {Index : Type 0} → ℕ → Store Index → World Index → World Index
with_store p s w = record w { stores = λ q. if nat_eq p q then s else w.stores q }

-- Entries stay what they are when further calls are made.
more_calls :
    (call : Added) (calls : List Added) (metadata : Dict ℕ Meta)
    → AllFrom calls metadata
    → AllFrom (call ∷ calls) metadata
more_calls call calls [] h = tt
more_calls call calls (e ∷ metadata) h = (
  record {
    call = h.0.call;
    made = inr h.0.made;
    document = h.0.document;
    owned = h.0.owned;
    chunk = h.0.chunk;
  },
  more_calls call calls metadata h.1,
)

AllFrom-insert :
    (calls : List Added) (i : ℕ) (meta : Meta) (metadata : Dict ℕ Meta)
    → IsFrom calls meta
    → AllFrom calls metadata
    → AllFrom calls (insert i meta metadata)
AllFrom-insert calls i meta [] new h = (new, tt)
AllFrom-insert calls i meta ((j, m) ∷ metadata) new h = elim (Bool-cases (nat_eq j i)) [
  | inl same ↦ rw same (new, h.1)
  | inr other ↦ rw other (h.0, AllFrom-insert calls i meta metadata new h.1)
]

AllFrom-erase :
    (calls : List Added) (i : ℕ) (metadata : Dict ℕ Meta)
    → AllFrom calls metadata
    → AllFrom calls (erase i metadata)
AllFrom-erase calls i [] h = tt
AllFrom-erase calls i ((j, m) ∷ metadata) h = elim (Bool-cases (nat_eq j i)) [
  | inl same ↦ rw same (AllFrom-erase calls i metadata h.1)
  | inr other ↦ rw other (h.0, AllFrom-erase calls i metadata h.1)
]

AllFrom-erase_all :
    (calls : List Added) (ids : List ℕ) (metadata : Dict ℕ Meta)
    → AllFrom calls metadata
    → AllFrom calls (erase_all ids metadata)
unfolding erase_all
AllFrom-erase_all calls [] metadata h = h
AllFrom-erase_all calls (i ∷ ids) metadata h =
    AllFrom-erase_all calls ids (erase i metadata) (AllFrom-erase calls i metadata h)

AllFrom-lookup :
    (calls : List Added) (i : ℕ) (meta : Meta) (metadata : Dict ℕ Meta)
    → AllFrom calls metadata
    → lookup i metadata ≡ some meta
    → IsFrom calls meta
AllFrom-lookup calls i meta [] h e = cc e
AllFrom-lookup calls i meta ((j, m) ∷ metadata) h e = elim (Bool-cases (nat_eq j i)) [
  | inl same ↦ let e' : m ≡ meta = ground (arith, e, same) in subst (IsFrom calls) e' h.0
  | inr other ↦ AllFrom-lookup calls i meta metadata h.1 (ground (arith, e, other))
]

-- The entries that `add` makes, of the chunks from some offset on, are those of its call.
AllFrom-tag_all :
    (calls : List Added) (call : Added) (offset : ℕ) (ids : List ℕ) (chunks : List Text)
    (metadata : Dict ℕ Meta)
    → Among call calls
    → All (λ text. Among text call.chunks) chunks
    → AllFrom calls metadata
    → AllFrom calls (tag_all call.document_id call.owner offset ids chunks metadata)
unfolding tag_all
AllFrom-tag_all calls call offset [] chunks metadata made within h = h
AllFrom-tag_all calls call offset (i ∷ ids) [] metadata made within h = h
AllFrom-tag_all calls call offset (i ∷ ids) (text ∷ chunks) metadata made within h =
    AllFrom-tag_all calls call (suc offset) ids chunks _ made within.1 (
      AllFrom-insert calls i _ metadata
        (record { call = call; made = made; document = refl; owned = refl; chunk = within.0 }) h)

all_within :
    (texts more : List Text)
    → All (λ t. Among t texts) more
    → (text : Text) → All (λ t. Among t (text ∷ texts)) more
all_within texts [] h text = tt
all_within texts (t ∷ more) h text = (inr h.0, all_within texts more h.1 text)

own_chunks : (chunks : List Text) → All (λ t. Among t chunks) chunks
own_chunks [] = tt
own_chunks (text ∷ chunks) = (inl refl, all_within chunks chunks (own_chunks chunks) text)

accepted-IsFrom :
    (calls : List Added) (metadata : Dict ℕ Meta) (owner : Text) (docs : Option (List Text))
    (i : Option ℕ) (meta : Meta)
    → AllFrom calls metadata
    → accept metadata owner docs i ≡ some meta
    → IsFrom calls meta
unfolding accept
accepted-IsFrom calls metadata owner docs none meta h e = cc e
accepted-IsFrom calls metadata owner docs (some i) meta h e =
    elim (Option-cases (lookup i metadata)) [
      | inl unknown ↦ absurd (ground (arith, e, unknown))
      | inr (m, stored) ↦
          let e' : lookup i metadata ≡ some meta = ground (arith, e, stored) in
          AllFrom-lookup calls i meta metadata h e'
    ]

module _ (F : Faiss) where
  open F use {Vector, Score, Index}

  -- What process `p` does next, in any order: this covers every way in which the parts of the calls
  -- of different processes can follow each other.
  pub data Step (w : World Index) (w' : World Index) : Type 0 where
    -- a restart, up to `_load_metadata`
    starts :
        (p : ℕ)
        → w'
          ≡ with_store p
              (record {
                next_id = 0;
                metadata = [];
                index = load_or_create_index F w.files;
                loaded_mtimes = mtimes F w.files;
              })
              w
        → Step w w'
    -- the times and the index in `_reload_if_stale`
    reads_index :
        (p : ℕ) (loaded : ℕ × ℕ)
        → w'
          ≡ with_store p
              (record (w.stores p) {
                index = load_or_create_index F w.files;
                loaded_mtimes = loaded;
              })
              w
        → Step w w'
    reads_metadata :
        (p : ℕ) → w' ≡ with_store p (load_metadata F w.files (w.stores p)) w → Step w w'
    -- `add` and `delete_document` in memory, up to `_save`
    adds :
        (p t u : ℕ) (document_id : Text) (chunks : List Text) (vectors : List Vector) (owner : Text)
        → (let r = add_loaded F t u document_id chunks vectors owner (w.stores p) w.files in
            let call : Added = record {
              document_id = document_id;
              owner = owner;
              chunks = chunks;
            } in
            w' ≡ record (with_store p r.1 w) { calls = call ∷ w.calls })
        → Step w w'
    deletes :
        (p t u : ℕ) (document_id owner : Text)
        → w' ≡ with_store p (delete_loaded F t u document_id owner (w.stores p) w.files).1 w
        → Step w w'
    -- the two writes of `_save`; two processes that write the temporary file at once may leave a
    -- text that cannot be read
    writes_index :
        (p t : ℕ)
        → w' ≡ record w { files = record w.files { index_file = some ((w.stores p).index, t) } }
        → Step w w'
    writes_metadata :
        (p u : ℕ)
        → w' ≡ record w {
          files = record w.files {
            metadata_file = some (valid (w.stores p).metadata (w.stores p).next_id, u);
          };
        }
        → Step w w'
    garbles_metadata :
        (u : ℕ)
        → w' ≡ record w { files = record w.files { metadata_file = some (corrupt, u) } }
        → Step w w'

  -- Every process begins with no files.
  abbrev pub no_files : Files Index
  no_files = record { index_file = none; metadata_file = none }

  abbrev pub start : World Index
  start = record {
    stores = λ p. record {
      next_id = 0;
      metadata = [];
      index = load_or_create_index F no_files;
      loaded_mtimes = mtimes F no_files;
    };
    files = no_files;
    calls = [];
  }

  pub data Reach : World Index → Type 0 where
    here : Reach start
    next : {w w' : World Index} → Reach w → Step w w' → Reach w'

  -- What the metadata file holds, if it can be read.
  abbrev InFile : List Added → Option (MetadataFile × ℕ) → Type 0
  InFile calls none = Unit
  InFile calls (some (valid metadata next_id, u)) = AllFrom calls metadata
  InFile calls (some (corrupt, u)) = Unit

  record AllMade (w : World Index) : Type 0 where
    at : (p : ℕ) → AllFrom w.calls (w.stores p).metadata
    file : InFile w.calls w.files.metadata_file

  InFile-more :
      (call : Added) (calls : List Added) (m : Option (MetadataFile × ℕ))
      → InFile calls m
      → InFile (call ∷ calls) m
  InFile-more call calls none h = tt
  InFile-more call calls (some (valid metadata next_id, u)) h = more_calls call calls metadata h
  InFile-more call calls (some (corrupt, u)) h = tt

  with_store-AllMade :
      (p : ℕ) (s : Store Index) (w : World Index)
      → AllMade w
      → AllFrom w.calls s.metadata
      → AllMade (with_store p s w)
  with_store-AllMade p s w h new = record {
    at = λ q. elim (Bool-cases (nat_eq p q)) [
      | inl same ↦ rw same new
      | inr other ↦ rw other (h.at q)
    ];
    file = h.file;
  }

  load_metadata-AllFrom :
      (calls : List Added) (i : Option (Index × ℕ)) (m : Option (MetadataFile × ℕ))
      (s : Store Index)
      → AllFrom calls s.metadata
      → InFile calls m
      → AllFrom calls (load_metadata F (record { index_file = i; metadata_file = m }) s).metadata
  unfolding load_metadata
  load_metadata-AllFrom calls i none s h saved = h
  load_metadata-AllFrom calls i (some (valid metadata next_id, u)) s h saved = saved
  load_metadata-AllFrom calls i (some (corrupt, u)) s h saved = tt

  add_loaded-metadata :
      (t u : ℕ) (call : Added) (vectors : List Vector) (s : Store Index) (files : Files Index)
      → (add_loaded F t u call.document_id call.chunks vectors call.owner s files).1.metadata ≡ (
          let ids = arange s.next_id (length call.chunks) in
          elim (F.add_with_ids s.index vectors ids) [
            | none ↦ s.metadata
            | some index ↦ tag_all call.document_id call.owner 0 ids call.chunks s.metadata
          ])
  unfolding add_loaded save
  add_loaded-metadata t u call vectors s files = ground arith

  add_loaded-AllFrom :
      (calls : List Added) (call : Added) (t u : ℕ) (vectors : List Vector) (s : Store Index)
      (files : Files Index)
      → AllFrom calls s.metadata
      → AllFrom
          (call ∷ calls)
          (add_loaded F t u call.document_id call.chunks vectors call.owner s files).1.metadata
  unfolding add_loaded save
  add_loaded-AllFrom calls call t u vectors s files h =
      let ids = arange s.next_id (length call.chunks) in
      let old = more_calls call calls s.metadata h in
      rw (add_loaded-metadata t u call vectors s files)
        (elim (Option-cases (F.add_with_ids s.index vectors ids)) [
          | inl refused ↦ rw refused old
          | inr (index, done) ↦ rw done (
              AllFrom-tag_all (call ∷ calls) call 0 ids call.chunks s.metadata (inl refl)
                (own_chunks call.chunks) old)
        ])

  delete_loaded-AllFrom :
      (calls : List Added) (t u : ℕ) (document_id owner : Text) (s : Store Index)
      (files : Files Index)
      → AllFrom calls s.metadata
      → AllFrom calls (delete_loaded F t u document_id owner s files).1.metadata
  unfolding delete_loaded save
  delete_loaded-AllFrom calls t u document_id owner s files h =
      let ids = matching_ids document_id owner s.metadata in
      elim (Bool-cases (is_empty ids)) [
        | inl nothing ↦ rw nothing h
        | inr found ↦ rw found (AllFrom-erase_all calls ids s.metadata h)
      ]

  Step-AllMade : {w w' : World Index} → Step w w' → AllMade w → AllMade w'
  Step-AllMade {w} (starts p e) h = rw e (with_store-AllMade p _ w h tt)
  Step-AllMade {w} (reads_index p loaded e) h = rw e (with_store-AllMade p _ w h (h.at p))
  Step-AllMade {w} (reads_metadata p e) h = rw e (
      with_store-AllMade p _ w h (
        load_metadata-AllFrom w.calls w.files.index_file w.files.metadata_file (w.stores p) (h.at p)
          h.file))
  Step-AllMade {w} (adds p t u d chunks vectors owner e) h =
      let call : Added = record { document_id = d; owner = owner; chunks = chunks } in
      let w₁ : World Index = record w { calls = call ∷ w.calls } in
      let h₁ : AllMade w₁ = record {
        at = λ q. more_calls call w.calls (w.stores q).metadata (h.at q);
        file = InFile-more call w.calls w.files.metadata_file h.file;
      } in
      rw e (
        with_store-AllMade p _ w₁ h₁
          (add_loaded-AllFrom w.calls call t u vectors (w.stores p) w.files (h.at p)))
  Step-AllMade {w} (deletes p t u d owner e) h = rw e (
      with_store-AllMade p _ w h
        (delete_loaded-AllFrom w.calls t u d owner (w.stores p) w.files (h.at p)))
  Step-AllMade (writes_index p t e) h = rw e (record { at = h.at; file = h.file })
  Step-AllMade (writes_metadata p u e) h = rw e (record { at = h.at; file = h.at p })
  Step-AllMade (garbles_metadata u e) h = rw e (record { at = h.at; file = tt })

  Reach-AllMade : {w : World Index} → Reach w → AllMade w
  Reach-AllMade here = record { at = λ p. tt; file = tt }
  Reach-AllMade (next r step) = Step-AllMade step (Reach-AllMade r)

  -- However the readings, changes and writings of any number of processes over one STORE_DIR
  -- interleave, whatever the file times are, and also where updates are lost, an index does not fit
  -- its metadata or the metadata cannot be read: what a search in any process then returns from its
  -- memory are, each, a chunk of a text that `add` was called with for this owner, under the
  -- document of that call, which is one of the wanted documents.
  pub search_loaded-IsFrom :
      (w : World Index) (p : ℕ) (query : Vector) (owner : Text) (top_k : ℕ)
      (docs : Option (List Text))
      → Reach w
      → All
          (λ h. IsVisible owner docs h.meta × IsFrom w.calls h.meta)
          (search_loaded F query owner top_k docs (w.stores p))
  search_loaded-IsFrom w p query owner top_k docs r =
      All-search_loaded F query owner top_k docs (w.stores p) _ (λ i meta e. (
        accept-IsVisible (w.stores p).metadata owner docs i meta e,
        accepted-IsFrom w.calls (w.stores p).metadata owner docs i meta ((Reach-AllMade r).at p) e,
      ))

  -- A search after another process's save answers as that process would: if the file times are not
  -- those that this process last saw, it has the saved index and metadata, and returns the same
  -- results for every query.
  pub search_store-save :
      (t u : ℕ) (saver reader : Store Index) (files : Files Index) (query : Vector) (owner : Text)
      (top_k : ℕ) (docs : Option (List Text))
      → reader.loaded_mtimes ≢ (t, u)
      → let (saver', files') = save F t u saver files in
        (search_store F query owner top_k docs reader files').0
        ≡ (search_store F query owner top_k docs saver' files').0
  unfolding search_store save
  search_store-save t u saver reader files query [] top_k docs h = refl
  search_store-save t u saver reader files query (c ∷ owner) top_k docs h =
      let stale : same_mtimes (t, u) reader.loaded_mtimes ≡ false = ground arith in
      let same : same_mtimes (t, u) (t, u) ≡ true = ground arith in rw (stale, same)
