-- ===== src/AiWorker/Tasks/Sample.antt =====
-- A document of one chunk, over an index that keeps only its ids.
use ai_document_analysis.Prelude.{
  ℕ, nat-Eq, ◌≡◌, refl, ◌⊎◌, inr, none, some, List, [], ◌∷◌, Text, codes, length, map,
}
use ai_document_analysis.Shared.Json.Postfix.{postfix}
use ai_document_analysis.AiWorker.FaissStore.Types.{Outcome}
use ai_document_analysis.AiWorker.FaissStore.IdIndex.{
  id_index, empty_dir, fresh_store, fresh-IsSound,
}
use ai_document_analysis.DocumentService.Documents.{pending}
use ai_document_analysis.AiWorker.Tasks.{Row, Worker, Outside}
use ai_document_analysis.AiWorker.Tasks.Processing.{IsReady}

abbrev pub id : Text
id = codes "d1"

abbrev pub alice : Text
alice = codes "alice"

abbrev pub row : Row
row = record {
  id = id;
  owner_id = alice;
  status = pending;
  error_message = none;
  chunk_count = none;
  updated_at = 0;
}

abbrev pub chunks : List Text
chunks = codes "abc" ∷ []

abbrev pub worker : Worker (List ℕ)
worker = record {
  row = some row;
  sidecar = some chunks;
  store = fresh_store;
  files = empty_dir;
  sent = [];
  published = [];
}

-- The vector of a chunk is its length.
abbrev pub embed_texts : List Text → Text ⊎ List ℕ
embed_texts chunks = inr (map length chunks)

abbrev pub good : Outside ℕ
good = record {
  t = 1;
  u = 2;
  t' = 3;
  u' = 4;
  embed_texts = embed_texts;
  send_raises = none;
  publish_raises = none;
  publish_failed_raises = none;
}

abbrev pub no_message : Outcome ℕ → Text
no_message o = []

pub ready :
    (o : Outside ℕ)
    → o.embed_texts chunks ≡ inr (3 ∷ [])
    → IsReady postfix id_index (codes "up") no_message o worker row chunks (3 ∷ [])
ready o e = record {
  there = refl;
  stored = refl;
  embedded = e;
  owned = cc;
  paired = refl;
  sound = fresh-IsSound;
}
