-- ===== src/Shared/ServiceClient/Retries.antt =====
-- Which attempts a request makes, and which of them is its answer.
use ai_document_analysis.Prelude.{
  ℕ, zero, suc, ◌+◌, ◌-◌, ◌≤◌, ◌<◌, ◌≡◌, refl, ap, ◌∙◌, inl, inr, true, Text, Bool-cases, arith,
}
use ai_document_analysis.Shared.ServiceClient.{Attempt, is_retried, send, answer_of, request}

-- From the attempt `n` on, `k` attempts fail in a way that is retried, and the next one is the last.
pub record IsLast (attempt : ℕ → Attempt) (left n k : ℕ) (result : Attempt × ℕ) : Type 0 where
  pub within : k ≤ left
  pub made : result.1 ≡ suc (n + k)
  pub last : result.0 ≡ attempt (n + k)
  pub retried : (j : ℕ) → j < k → is_retried (attempt (n + j)) ≡ true
  pub exhausted : is_retried result.0 ≡ true → k ≡ left

retried_before :
    (attempt : ℕ → Attempt) (n k : ℕ)
    → is_retried (attempt n) ≡ true
    → ((j : ℕ) → j < k → is_retried (attempt (suc n + j)) ≡ true)
    → (j : ℕ) → j < suc k
    → is_retried (attempt (n + j)) ≡ true
retried_before attempt n k first later zero h =
    ap (λ i. is_retried (attempt i)) (omega arith) ∙ first
retried_before attempt n k first later (suc j) h =
    ap (λ i. is_retried (attempt i)) (omega arith) ∙ later j (omega (arith, h))

send-IsLast :
    (attempt : ℕ → Attempt) (left n : ℕ) → (k : ℕ) × IsLast attempt left n k (send attempt left n)
unfolding send
send-IsLast attempt zero n = (
  0,
  record {
    within = omega arith;
    made = omega arith;
    last = ap attempt (omega arith);
    retried = λ j h. ground (arith, h);
    exhausted = λ h. refl;
  },
)
send-IsLast attempt (suc left) n = elim (Bool-cases (is_retried (attempt n))) [
  | inr final ↦ (
    0,
    rw final (record {
      within = omega arith;
      made = omega arith;
      last = ap attempt (omega arith);
      retried = λ j h. ground (arith, h);
      exhausted = λ h. ground (arith, h, final);
    }),
  )
  | inl again ↦
      let (k, rest) = send-IsLast attempt left (suc n) in
      (
        suc k,
        rw again (record {
          within = omega (arith, rest.within);
          made = omega (arith, rest.made);
          last = rest.last ∙ ap attempt (omega arith);
          retried = retried_before attempt n k again rest.retried;
          exhausted = λ h. ap suc (rest.exhausted h);
        }),
      )
]

-- A request makes at least one and at most HTTP_MAX_RETRIES attempts (one, where that is 0). Every
-- attempt before the last failed in a way that is retried, the answer is that of the last, and if
-- that failed so as well, all attempts were made.
pub request-IsLast :
    (failure : Attempt → Text) (max_retries : ℕ) (attempt : ℕ → Attempt)
    → (k : ℕ) × (request failure max_retries attempt ≡ (answer_of failure (attempt k), suc k))
      × (k ≤ max_retries - 1)
      × ((j : ℕ) → j < k → is_retried (attempt j) ≡ true)
      × (is_retried (attempt k) ≡ true → k ≡ max_retries - 1)
unfolding request
request-IsLast failure max_retries attempt =
    let (k, h) = send-IsLast attempt (max_retries - 1) 0 in
    let last : (send attempt (max_retries - 1) 0).0 ≡ attempt k =
      h.last ∙ ap attempt (omega arith) in
    let made : (send attempt (max_retries - 1) 0).1 ≡ suc k = h.made ∙ omega arith in
    (
      k,
      rw (last, made) refl,
      h.within,
      λ j less. ap is_retried (ap attempt (omega arith)) ∙ h.retried j less,
      λ failed. h.exhausted (ap is_retried last ∙ failed),
    )
