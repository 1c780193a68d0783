-- ===== src/Gateway/RateLimit.antt =====
-- gateway-service/app/core/rate_limit.py. SHA-256 is the argument `sha256_hex`, and the services
-- behind the gateway are `call_next` with their state.
pub mod Admission
mod Tests
use ai_document_analysis.Prelude.{ℕ, Bool, Option, none, some, [], ◌∷◌, Text, codes, if◌then◌else◌}
use ai_document_analysis.Shared.Redis.{is_allowed}
use ai_document_analysis.Shared.Redis.Server.{Redis}

-- What the middleware reads of a request.
pub record Request : Type 0 where
  pub client_host : Option Text
  pub authorization : Option Text

pub data Answer (A : Type 0) : Type 0 where
  too_many_requests : Answer A
  answered : A → ℕ → Answer A

-- `request.client.host if request.client else "unknown"`
abbrev pub host_or_unknown : Option Text → Text
host_or_unknown none = codes "unknown"
host_or_unknown (some host) = host

abbrev pub identity_by : (Text → Text) → Option Text → Option Text → Text
identity_by sha256_hex host none = host_or_unknown host
identity_by sha256_hex host (some []) = host_or_unknown host
identity_by sha256_hex host (some (c ∷ header)) = sha256_hex (c ∷ header)

module _ (R : Redis) (sha256_hex : Text → Text) (limit : ℕ) {A W : Type 0}
    (call_next : Request → W → A × W) where
  open R use {Server}

  -- The identity that a request is counted under.
  abbrev pub identity_of : Request → Text
  identity_of request = identity_by sha256_hex request.client_host request.authorization

  -- `dispatch`, where the limiter's INCR runs at `now` and its EXPIRE at `later`
  pub dispatch : ℕ → ℕ → Request → Server → W → Answer A × Server × W
  dispatch now later request s w =
      let ((allowed, remaining), s') = is_allowed R limit 60 s now later (identity_of request) in
      let (answer, w') = call_next request w in
      if allowed then (answered answer remaining, s', w') else (too_many_requests, s', w)
