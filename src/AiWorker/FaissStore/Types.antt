-- ===== src/AiWorker/FaissStore/Types.antt =====
-- The records of the vector store, its files, and how its methods end.
use ai_document_analysis.Prelude.{ℕ, Option, Text}
use ai_document_analysis.Prelude.Dict.{Dict}

-- One entry of `_metadata`. Entries from before owners were recorded have no `owner_id`.
pub record Meta : Type 0 where
  pub document_id : Text
  pub owner_id : Option Text
  pub chunk_index : ℕ
  pub text : Text

-- metadata.json: what `_save` writes, or a text for which `_load_metadata` raises a JSONDecodeError,
-- KeyError or ValueError. A text for which it raises another exception, as null, is not here.
pub data MetadataFile : Type 0 where
  valid : Dict ℕ Meta → ℕ → MetadataFile
  corrupt : MetadataFile

-- STORE_DIR, each file with its modification time. An index file that is there can be read.
pub record Files (Index : Type 0) : Type 0 where
  pub index_file : Option (Index × ℕ)
  pub metadata_file : Option (MetadataFile × ℕ)

-- The fields of `FaissStore`.
pub record Store (Index : Type 0) : Type 0 where
  pub next_id : ℕ
  pub metadata : Dict ℕ Meta
  pub index : Index
  pub loaded_mtimes : ℕ × ℕ

-- `{**meta, "score": float(score)}`
pub record Hit (Score : Type 0) : Type 0 where
  pub meta : Meta
  pub score : Score

pub data Outcome (A : Type 0) : Type 0 where
  returned : A → Outcome A
  value_error assertion_error : Outcome A
