-- ===== src/DocumentService.antt =====
-- document-service: upload, text extraction and chunking, the `documents` table, status sockets.
pub mod Chunker
pub mod Documents
pub mod WsManager
pub mod StatusRoute
pub mod Admin
pub mod Routes
