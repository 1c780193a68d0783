-- ===== src/AiWorker.antt =====
-- ai-worker-service: the vector store and its tasks.
pub mod FaissStore
pub mod Api
pub mod Tasks
