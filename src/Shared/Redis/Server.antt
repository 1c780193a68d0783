-- ===== src/Shared/Redis/Server.antt =====
-- What the code relies on of a Redis server. A value is stored as its JSON
-- text, and stands for that text here.
use ai_document_analysis.Shared.Json.{Json}
use ai_document_analysis.Prelude.{
  ℕ, suc, ◌+◌, ◌*◌, ◌≤◌, ◌<◌, ◌≡◌, Option, none, some, Text, ◌==◌, text-Eq, ltb, if◌then◌else◌,
}

abbrev pub Value : Type 0
Value = Json

-- A counter with its deadline, as it counts at the time `t`.
abbrev pub count_at : ℕ → Option (ℕ × Option ℕ) → ℕ
count_at t none = 0
count_at t (some (n, none)) = n
count_at t (some (n, some deadline)) = if ltb t deadline then n else 0

abbrev pub deadline_at : ℕ → Option (ℕ × Option ℕ) → Option ℕ
deadline_at t none = none
deadline_at t (some (n, none)) = none
deadline_at t (some (n, some deadline)) = if ltb t deadline then some deadline else none

-- `counter` shows what a server keeps under the key of a counter. The laws are Redis's
-- documentation: SET with EX keeps the value for so many seconds and touches no other key; INCR
-- counts from 0 where the key is missing or expired, and keeps a running deadline; EXPIRE sets it.
pub record Redis : Type 1 where
  pub Server : Type 0
  pub get : Server → ℕ → Text → Option Value
  pub set : Server → ℕ → Text → Value → ℕ → Server
  pub delete : Server → ℕ → Text → Server
  pub incr : Server → ℕ → Text → Server × ℕ
  pub expire : Server → ℕ → Text → ℕ → Server
  pub counter : Server → Text → Option (ℕ × Option ℕ)
  pub get-set :
      (s : Server) (now t ttl : ℕ) (k j : Text) (v : Value)
      → now ≤ t
      → 0 < ttl
      → get (set s now k v ttl) t j
        ≡ (if k == j then if ltb t (now + ttl * 1000) then some v else none else get s t j)
  pub get-delete :
      (s : Server) (now t : ℕ) (k j : Text)
      → now ≤ t
      → get (delete s now k) t j ≡ (if k == j then none else get s t j)
  pub incr-count :
      (s : Server) (now : ℕ) (k : Text) → (incr s now k).1 ≡ suc (count_at now (counter s k))
  pub counter-incr :
      (s : Server) (now : ℕ) (k j : Text)
      → counter (incr s now k).0 j ≡ (
          if k == j
          then some (suc (count_at now (counter s k)), deadline_at now (counter s k))
          else counter s j)
  pub counter-expire :
      (s : Server) (now n seconds : ℕ) (k j : Text)
      → counter s k ≡ some (n, none)
      → counter (expire s now k seconds) j
        ≡ (if k == j then some (n, some (now + seconds * 1000)) else counter s j)
