-- ===== src/Lib.antt =====
-- A model of the AI document analysis platform, a set of Python services behind a gateway: accounts
-- (auth-service), uploaded PDFs cut into chunks (document-service), their embeddings and the vector
-- search over them (ai-worker-service), the questions that a language model answers from them
-- (chat-service), and what the services share (shared).
--
-- Which file models which code:
--   Shared/Exceptions      shared/exceptions/exceptions.py: the exceptions as a result type; Handler
--                          the responses to them
--   Shared/Settings        shared/config/settings.py: the allowed origins and the database's URL
--   Shared/Json            the JSON values that the services store, receive and send
--   Shared/Redis           shared/cache/redis_client.py: cache, token blacklist, rate limiter; Channels
--                          has the channels of document statuses
--   Shared/Jwt             shared/security/jwt.py: tokens with a type, an id and an expiry
--   Shared/Oauth           shared/security/oauth.py: the caller of a request, the role guard
--   Shared/ServiceClient   shared/clients/service_client.py: the retries of a request to a service
--   AuthService            auth-service/app/services/auth_service.py and api/v1/auth.py;
--                          AuthService/Users the users table with its repository
--   AuthService/Migrations auth-service/alembic/versions/002_updated_user_table.py: the rows
--   DocumentService/Chunker   document-service/app/utils/chunker.py: `chunk_text` and `_split`
--   DocumentService/WsManager document-service/app/core/ws_manager.py: the status sockets
--   DocumentService/StatusRoute document-service/app/api/v1/documents_ws.py: the sockets' sessions, and
--                          what they are sent; Pipeline puts them after the worker's task
--   DocumentService/Documents document-service/app/services/document_service.py: upload, reading,
--                          deletion and requeueing over the table, the files and the sent tasks,
--                          with a broker that may be out of reach (Sending);
--                          Deletion puts a deletion over the worker's route
--   DocumentService/Routes document-service/app/api/v1/documents.py: the routes of a user's documents
--   DocumentService/Admin  document-service/app/api/v1/admin.py: the routes for administrators
--   Gateway/RateLimit      gateway-service/app/core/rate_limit.py: the middleware
--   Gateway/Proxy          gateway-service/app/api/v1/proxy.py: limits, paths and routes
--   Gateway/WsProxy        gateway-service/app/api/v1/ws_proxy.py: the relay of the status sockets;
--                          Through puts it before document-service's route
--   AiWorker/FaissStore    ai-worker-service/app/vectorstore/faiss_store.py: the vector store that
--                          several processes share through two files
--   AiWorker/Tasks         ai-worker-service/app/tasks.py: what indexes a document, its retries,
--                          and requeueing; Uploaded puts it between an upload and a search
--   AiWorker/Api           ai-worker-service/app/api/v1/search.py, documents_internal.py
--   ChatService/LlmClient  chat-service/app/services/llm_client.py: the calls of the language model
--   ChatService/RagService chat-service/app/services/rag_service.py: sessions, cached answers, and
--                          both ways to answer; Isolation puts it over the worker's search
--   ChatService/QueryRoute chat-service/app/api/v1/chat_query_route.py: the routes, event streams
--   Prelude                Python's strings, dicts and tests, and the lemmas on them
--
-- How they interact: auth-service issues tokens with Shared/Jwt and revokes them with Shared/Redis;
-- every service reads the caller of a request from a token with Shared/Oauth. document-service cuts a
-- text with the chunker when it is uploaded, and ai-worker-service replaces the chunks of a document
-- in the vector store. chat-service asks ai-worker-service for excerpts and the model for an answer,
-- and keeps answers and histories with Shared/Redis. The gateway limits the requests with
-- Shared/Redis and forwards them.
--
-- State. A method that changes an object returns the changed object. Code that can fail returns
-- `Result`, whose exceptions are those of the source, `unhandled` standing for any other. A text is
-- the list of its character codes, an id its text. Times are in milliseconds and are arguments: a
-- call reads the clock once. The users table is the list of its rows. The vector store has a lock of
-- threads, so within one process its calls follow each other, and AiWorker/FaissStore and
-- AiWorker/Tasks take them whole. Between processes nothing keeps calls apart:
-- AiWorker/FaissStore/System lets every process read a file, change its memory or write a file at any
-- time; the other theorems on the store are about calls that do not overlap with those of another
-- process.
--
-- Parameters. The Redis server and its channels, jose, passlib and the FAISS index are records of operations with the
-- laws that their documentation states (Shared/Redis/Server, Shared/Jwt/Tokens, AuthService/Users,
-- AiWorker/FaissStore/Interface), and so is Python's json (Shared/Json/Codec). Shared/Redis/Memory, Shared/Redis/Subscriber,
-- Shared/Jwt/Plain, AiWorker/FaissStore/IdIndex and Shared/Json/Postfix are instances with which the
-- examples run. PDF extraction, the embedding model, the language model, ai-worker-service as
-- document-service calls it, httpx, `float`, SHA-256 and the services behind the gateway are
-- arguments of the definitions that call them.
--
-- Fuel. `split` of the chunker recurses on fuel, and `chunk_text` gives it one more than
-- the characters of the text, which is enough, since each round works on a shorter text.
-- The retries of the service client, of the model's client and of the worker's task recurse on what
-- is left of them. The other loops are structural.
--
-- Not modelled: calls of two processes that overlap, but for AiWorker/FaissStore/System; a
-- metadata.json on which `_load_metadata` raises an exception that it does not catch, and an index file
-- that cannot be read; a client that disconnects from an event stream, how long Celery waits before it
-- runs a task again; HTTP, WebSocket and SQL transport, sessions, the columns that migrations
-- declare, and how settings are read; PDF extraction, the embedding model, the language model, and
-- the frontend, which are not the services' own logic.
pub mod Prelude
pub mod Shared
pub mod AuthService
pub mod DocumentService
pub mod AiWorker
pub mod Gateway
pub mod ChatService
