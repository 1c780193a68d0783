-- ===== src/Shared/Json/Codec.antt =====
-- What the code relies on of Python's `json`.
use ai_document_analysis.Prelude.{◌≡◌, ◌≢◌, false, Option, some, Text, All, is_empty, strip}
use ai_document_analysis.Shared.Json.{Json}

-- `loads` is `none` where it raises a JSONDecodeError. The laws are the documentation's: what
-- `dumps` writes is read back, is not blank, has no space around it and holds no line break.
pub record Codec : Type 0 where
  pub dumps : Json → Text
  pub loads : Text → Option Json
  pub loads-dumps : (j : Json) → loads (dumps j) ≡ some j
  pub strip-dumps : (j : Json) → strip (dumps j) ≡ dumps j
  pub dumps_some : (j : Json) → is_empty (dumps j) ≡ false
  pub dumps_line : (j : Json) → All (λ c. c ≢ 10) (dumps j)
