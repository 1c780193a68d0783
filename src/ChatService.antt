-- ===== src/ChatService.antt =====
-- chat-service: questions about a user's documents, answered by a language model.
pub mod LlmClient
pub mod RagService
pub mod QueryRoute
