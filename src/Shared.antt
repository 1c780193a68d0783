-- ===== src/Shared.antt =====
-- shared/: exceptions, Redis clients, tokens and the guards that every service uses.
pub mod Settings
pub mod Json
pub mod Exceptions
pub mod Redis
pub mod Jwt
pub mod Oauth
pub mod ServiceClient
