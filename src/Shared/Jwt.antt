-- ===== src/Shared/Jwt.antt =====
-- shared/security/jwt.py. jose's `jwt` with the application's secret is the parameter `Jose`; times
-- are in milliseconds, the claims `iat` and `exp` in seconds.
pub mod Tokens
pub mod Plain
use ai_document_analysis.Prelude.{
  ℕ, ◌+◌, ◌-◌, ◌*◌, ◌/◌, Bool, true, false, not, Option, none, some, ◌++◌, Text, ◌==◌, text-Eq,
  codes, nat_eq, if◌then◌else◌,
}
use ai_document_analysis.Shared.Exceptions.{Exception, Result, ok, raise, raise_if, ◌>>=◌, ◌>>◌}
use ai_document_analysis.Shared.Jwt.Tokens.{Jose, Claims}

abbrev pub access : Text
access = codes "access"

abbrev pub refresh : Text
refresh = codes "refresh"

-- The claims that `_issue_tokens` adds to an access token.
pub record ExtraClaims : Type 0 where
  pub email : Text
  pub role : Text

-- The payload of `_create_token`. `jti` is the fresh uuid4.
unfoldable pub payload_of : Text → ℕ → Text → Option ExtraClaims → ℕ → Text → Claims
payload_of subject expires_seconds token_type extra now jti = record {
  sub = some subject;
  type = some token_type;
  jti = some jti;
  iat = some (now / 1000);
  exp = some (now / 1000 + expires_seconds);
  email = elim extra [ none ↦ none | some e ↦ some e.email ];
  role = elim extra [ none ↦ none | some e ↦ some e.role ];
}

-- `expected_type and payload.get("type") != expected_type`, negated
abbrev pub has_type : Text → Claims → Bool
has_type expected c = elim c.type [ none ↦ false | some t ↦ t == expected ]

-- `remaining_ttl_seconds`, at the time `now`
unfoldable pub remaining_ttl_seconds : Claims → ℕ → ℕ
remaining_ttl_seconds c now = elim c.exp [
  | none ↦ 0
  | some exp ↦ if nat_eq exp 0 then 0 else (exp * 1000 - now) / 1000
]

module _ (J : Jose) where
  open J use {encode, decode}

  unfoldable pub create_token : Text → ℕ → Text → Option ExtraClaims → ℕ → Text → Text
  unfolding payload_of
  create_token subject expires_seconds token_type extra now jti =
      encode (payload_of subject expires_seconds token_type extra now jti)

  -- `expire_minutes` is ACCESS_TOKEN_EXPIRE_MINUTES.
  unfoldable pub create_access_token : ℕ → Text → Option ExtraClaims → ℕ → Text → Text
  unfolding create_token
  create_access_token expire_minutes subject extra now jti =
      create_token subject (expire_minutes * 60) access extra now jti

  unfoldable pub create_refresh_token : Text → ℕ → Text → Text
  unfolding create_token
  create_refresh_token subject now jti =
      create_token subject (7 * 24 * 60 * 60) refresh none now jti

  unfoldable pub decode_token : ℕ → Text → Text → Result Claims
  decode_token now token expected = elim (decode now token) [
    | none ↦ raise (Exception.unauthorized (codes "Invalid or expired token"))
    | some c ↦ do
      raise_if (not (has_type expected c))
          (Exception.unauthorized (codes "Expected a " ++ (expected ++ codes " token")))
      ok c
  ]
