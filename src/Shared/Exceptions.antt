-- ===== src/Shared/Exceptions.antt =====
-- shared/exceptions/exceptions.py and handlers.py, with the subclasses that the services add.
-- `unhandled` is any other Python exception, which FastAPI answers with 500.
pub mod Handler
use ai_document_analysis.Prelude.{ℕ, Text, Bool, ◌≡◌, refl, ◌⊎◌, inl, inr, if◌then◌else◌}

pub data Exception : Type 0 where
  not_found unauthorized validation forbidden conflict payload_too_large : Text → Exception
  upstream_service llm_error llm_rate_limited : Text → Exception
  unhandled : Text → Exception

unfoldable pub status_code : Exception → ℕ
status_code (Exception.not_found m) = 404
status_code (Exception.unauthorized m) = 401
status_code (Exception.validation m) = 422
status_code (Exception.forbidden m) = 403
status_code (Exception.conflict m) = 409
status_code (Exception.payload_too_large m) = 413
status_code (Exception.upstream_service m) = 502
status_code (Exception.llm_error m) = 502
status_code (Exception.llm_rate_limited m) = 429
status_code (Exception.unhandled m) = 500

pub data Result {ℓ} (A : Type ℓ) : Type ℓ where
  ok : A → Result A
  raise : Exception → Result A

infixl 5 ◌>>=◌ ◌>>◌
abbrev pub ◌>>=◌ {ℓ κ} : {A : Type ℓ} {B : Type κ} → Result A → (A → Result B) → Result B
ok a >>= f = f a
raise e >>= f = raise e

abbrev pub ◌>>◌ {ℓ} : {B : Type ℓ} → Result (Unit {0}) → Result B → Result B
m >> k = m >>= λ _. k

-- `if failed: raise e`
abbrev pub raise_if : Bool → Exception → Result (Unit {0})
raise_if failed e = if failed then raise e else ok tt

pub Result-cases {ℓ} :
    {A : Type ℓ} (r : Result A) → ((a : A) × (r ≡ ok a)) ⊎ ((e : Exception) × (r ≡ raise e))
Result-cases (ok a) = inl (a, refl)
Result-cases (raise e) = inr (e, refl)
