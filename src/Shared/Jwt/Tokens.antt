-- ===== src/Shared/Jwt/Tokens.antt =====
-- What the code relies on of jose: signing and reading a token with the one secret.
use ai_document_analysis.Prelude.{ℕ, ◌+◌, ◌*◌, ◌≤◌, ◌<◌, ◌≡◌, Option, none, some, Text}

-- The claims that the program writes and reads; a decoded token may lack any of them.
pub record Claims : Type 0 where
  pub sub : Option Text
  pub type : Option Text
  pub jti : Option Text
  pub iat : Option ℕ
  pub exp : Option ℕ
  pub email : Option Text
  pub role : Option Text

-- The laws are jose's documentation: before its `exp` a token that was signed with the secret is
-- read back, and once the second of its `exp` is over it is refused. In that second itself
-- the laws leave the answer open.
pub record Jose : Type 0 where
  pub encode : Claims → Text
  pub decode : ℕ → Text → Option Claims
  pub decode_live :
      (c : Claims) (exp now : ℕ)
      → c.exp ≡ some exp
      → now < exp * 1000
      → decode now (encode c) ≡ some c
  pub decode_expired :
      (c : Claims) (exp now : ℕ)
      → c.exp ≡ some exp
      → (exp + 1) * 1000 ≤ now
      → decode now (encode c) ≡ none
