-- ===== src/Gateway/RateLimit/Tests.antt =====
-- Examples on a server in memory: three requests from one host, with and without tokens.
use ai_document_analysis.Prelude.{
  ℕ, suc, ◌≡◌, refl, none, some, List, [], ◌∷◌, Text, text_eq, codes, arith,
}
use ai_document_analysis.Shared.Redis.Memory.{memory, empty}
use ai_document_analysis.Gateway.RateLimit.{Request}
use ai_document_analysis.Gateway.RateLimit.Admission.{
  admitted_count, after_all, AreFresh, admitted_count-window, admitted_count-evaded,
}

abbrev from_host : Request
from_host = record { client_host = some (codes "10.0.0.1"); authorization = none }

abbrev with_token : Text → Request
with_token token = record { client_host = some (codes "10.0.0.1"); authorization = some token }

-- The services count the requests that reach them.
abbrev count_call : Request → ℕ → ℕ × ℕ
count_call request calls = (calls, suc calls)

abbrev guesses : List (ℕ × ℕ × Request)
guesses =
    (0, 1, with_token (codes "a"))
    ∷ (2, 3, with_token (codes "b"))
    ∷ (4, 5, with_token (codes "c"))
    ∷ []

guesses-AreFresh : AreFresh memory (λ t. t) 1 count_call guesses empty
unfolding text_eq
guesses-AreFresh = (tt, refl, (refl, (refl, tt)), (tt, refl, (refl, tt), (tt, refl, tt, tt)))

admitted_count-evaded_example :
    (after_all memory (λ t. t) 1 count_call guesses empty 0 ≡ 3)
    × (admitted_count memory (λ t. t) 1 count_call guesses empty 0 ≡ 3)
admitted_count-evaded_example =
    admitted_count-evaded memory (λ t. t) 1 count_call guesses empty 0 (omega arith)
      guesses-AreFresh

admitted_count-window_example :
    let all : List (ℕ × ℕ × Request) = (0, 1, from_host) ∷ (2, 3, from_host) ∷ [] in
    (after_all memory (λ t. t) 1 count_call all empty 0 ≡ 1)
    × (admitted_count memory (λ t. t) 1 count_call all empty 0 ≡ 1)
admitted_count-window_example =
    admitted_count-window memory (λ t. t) 1 count_call (codes "10.0.0.1") 0 1 from_host
      ((2, 3, from_host) ∷ []) empty 0 refl (refl, tt) refl refl (omega arith, tt)
