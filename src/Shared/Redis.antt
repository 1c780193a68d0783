-- ===== src/Shared/Redis.antt =====
-- shared/cache/redis_client.py: the key prefixes, `CacheClient`, `TokenBlacklist`, `RateLimiter`;
-- Channels has the document statuses.
-- The Redis server is the parameter `Redis`; times are in milliseconds.
pub mod Server
pub mod Window
pub mod Memory
pub mod Channels
pub mod Subscriber
mod Tests
use ai_document_analysis.Prelude.{
  ℕ, ◌+◌, ◌-◌, Bool, true, false, Option, none, some, ◌++◌, Text, codes, nat_eq, leb, if◌then◌else◌,
}
use ai_document_analysis.Shared.Json.{Json}
use ai_document_analysis.Shared.Redis.Server.{Redis, Value}

abbrev pub cache_prefix : Text
cache_prefix = codes "cache:"

abbrev pub session_prefix : Text
session_prefix = codes "session:"

abbrev pub ratelimit_prefix : Text
ratelimit_prefix = codes "ratelimit:"

abbrev pub token_blacklist_prefix : Text
token_blacklist_prefix = codes "token_blacklist:"

module _ (R : Redis) where
  open R use {Server, get, set, delete, incr, expire}

  -- `CacheClient.get`, of a client with the prefix; `SessionStore` and `TokenBlacklist` are
  -- clients with theirs.
  unfoldable pub cache_get : Text → Server → ℕ → Text → Option Value
  cache_get prefix s now key = get s now (prefix ++ key)

  unfoldable pub cache_set : Text → Server → ℕ → Text → Value → ℕ → Server
  cache_set prefix s now key value ttl_seconds = set s now (prefix ++ key) value ttl_seconds

  unfoldable pub cache_delete : Text → Server → ℕ → Text → Server
  cache_delete prefix s now key = delete s now (prefix ++ key)

  -- `TokenBlacklist.revoke`
  unfoldable pub revoke : Server → ℕ → Text → ℕ → Server
  unfolding cache_set
  revoke s now jti ttl_seconds =
      if leb ttl_seconds 0
      then s
      else cache_set token_blacklist_prefix s now jti (Json.bool true) ttl_seconds

  -- `TokenBlacklist.is_revoked`
  unfoldable pub is_revoked : Server → ℕ → Text → Bool
  unfolding cache_get
  is_revoked s now jti = elim (cache_get token_blacklist_prefix s now jti) [
    | none ↦ false
    | some v ↦ true
  ]

  -- `RateLimiter.is_allowed`: INCR runs at `now`, and EXPIRE, if it is called, at `later`.
  unfoldable pub is_allowed : ℕ → ℕ → Server → ℕ → ℕ → Text → (Bool × ℕ) × Server
  is_allowed limit window_seconds s now later identity =
      let key = ratelimit_prefix ++ identity in
      let (s', current) = incr s now key in
      (
        (leb current limit, limit - current),
        if nat_eq current 1 then expire s' later key window_seconds else s',
      )
