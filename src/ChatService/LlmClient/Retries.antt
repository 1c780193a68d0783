-- ===== src/ChatService/LlmClient/Retries.antt =====
-- `_post_with_rate_limit_retry`: how often it posts, what it answers and how long it waits.
use ai_document_analysis.Prelude.{
  ℕ, zero, suc, ◌+◌, ◌*◌, ◌≤◌, ◌<◌, ◌≡◌, refl, sym, ap, ◌∙◌, inl, inr, Bool, true, false, Option,
  none, List, [], ◌∷◌, Text, take, Bool-cases, arith,
}
use ai_document_analysis.Shared.Exceptions.{Result, ok, raise, Result-cases}
use ai_document_analysis.Shared.ServiceClient.{Response}
use ai_document_analysis.ChatService.LlmClient.{is_429, post_from, post_with_rate_limit_retry}

abbrev pub is_limited : Result Response → Bool
is_limited (raise e) = false
is_limited (ok r) = is_429 r

-- No answer of the rounds asks for a wait of its own.
abbrev pub HasNoHeader : Result Response → Type 0
HasNoHeader (raise e) = Unit
HasNoHeader (ok r) = r.retry_after ≡ none

-- The waits of the rounds, each twice the one before.
abbrev pub doubling : ℕ → ℕ → List ℕ
doubling delay zero = []
doubling delay (suc k) = delay ∷ doubling (delay * 2) k

module _ (float_ms : Text → Option ℕ) (post : ℕ → Result Response) where
  -- From the round `n` on, `k` rounds are rate limited and the next one answers.
  record IsAnswered (left n delay k : ℕ) (result : Result Response × List ℕ) : Type 0 where
    within : k ≤ left
    answer : result.0 ≡ post (n + k)
    waits : result.1 ≡ doubling delay k
    limited : (j : ℕ) → j < k → is_limited (post (n + j)) ≡ true
    exhausted : is_limited (post (n + k)) ≡ true → k ≡ left

  limited_before :
      (n k : ℕ)
      → is_limited (post n) ≡ true
      → ((j : ℕ) → j < k → is_limited (post (suc n + j)) ≡ true)
      → (j : ℕ) → j < suc k
      → is_limited (post (n + j)) ≡ true
  limited_before n k first later zero h = ap (λ i. is_limited (post i)) (omega arith) ∙ first
  limited_before n k first later (suc j) h =
      ap (λ i. is_limited (post i)) (omega arith) ∙ later j (omega (arith, h))

  answered_at_once :
      (left n delay : ℕ)
      → is_limited (post n) ≡ false
      → post_from float_ms post (suc left) n delay ≡ (post n, [])
  unfolding post_from
  answered_at_once left n delay other = elim (Result-cases (post n)) [
    | inr (e, raised) ↦ ground (arith, raised)
    | inl (r, responded) ↦ ground (arith, responded, other)
  ]

  retried :
      (left n delay : ℕ) (r : Response)
      → post n ≡ ok r
      → is_429 r ≡ true
      → r.retry_after ≡ none
      → post_from float_ms post (suc left) n delay ≡ (
        (post_from float_ms post left (suc n) (delay * 2)).0,
        delay ∷ (post_from float_ms post left (suc n) (delay * 2)).1,
      )
  unfolding post_from
  retried left n delay r responded limited free = ground (arith, responded, limited, free)

  limited_response :
      (n : ℕ) → is_limited (post n) ≡ true → (r : Response) × ((post n ≡ ok r) × (is_429 r ≡ true))
  limited_response n h = elim (Result-cases (post n)) [
    | inr (e, raised) ↦ cc (ap is_limited raised)
    | inl (r, responded) ↦ (r, (responded, sym (ap is_limited responded) ∙ h))
  ]

  absurd_limited :
      {A : Type 0} (n : ℕ) → is_limited (post n) ≡ false → is_limited (post (n + 0)) ≡ true → A
  absurd_limited n other h =
      let same : n + 0 ≡ n = omega arith in cc (ap (λ i. is_limited (post i)) same)

  post_from-IsAnswered :
      ((i : ℕ) → HasNoHeader (post i))
      → (left n delay : ℕ)
      → (k : ℕ) × IsAnswered left n delay k (post_from float_ms post left n delay)
  post_from-IsAnswered free zero n delay = (
    0,
    unfold post_from in
        record {
          within = omega arith;
          answer = ap post (omega arith);
          waits = refl;
          limited = λ j h. ground (arith, h);
          exhausted = λ h. refl;
        },
  )
  post_from-IsAnswered free (suc left) n delay = elim (Bool-cases (is_limited (post n))) [
    | inr other ↦ (
      0,
      rw (answered_at_once left n delay other) (record {
        within = omega arith;
        answer = ap post (omega arith);
        waits = refl;
        limited = λ j h. ground (arith, h);
        exhausted = λ h. absurd_limited n other h;
      }),
    )
    | inl again ↦
        let (r, responded) = limited_response n again in
        let (k, rest) = post_from-IsAnswered free left (suc n) (delay * 2) in
        (
          suc k,
          rw (retried left n delay r responded.0 responded.1 (rw responded.0 at (free n))) (record {
            within = omega (arith, rest.within);
            answer = rest.answer ∙ ap post (omega arith);
            waits = ap (λ ws. delay ∷ ws) rest.waits;
            limited = limited_before n k again rest.limited;
            exhausted =
                λ h. ap suc (rest.exhausted (ap (λ i. is_limited (post i)) (omega arith) ∙ h));
          }),
        )
  ]

  doubling-take : (k : ℕ) → k ≤ 3 → doubling 1000 k ≡ take k (1000 ∷ 2000 ∷ 4000 ∷ [])
  doubling-take zero h = refl
  doubling-take (suc zero) h = refl
  doubling-take (suc (suc zero)) h = refl
  doubling-take (suc (suc (suc zero))) h = refl
  doubling-take (suc (suc (suc (suc k)))) h = absurd (omega arith)

  -- Where no response names a time to wait, a question is posted at most four times: each post
  -- before the last was answered by 429, the answer is that of the last, a 429 is answered only by
  -- the fourth, and the waits between the posts are the first of one, two and four seconds.
  pub post_with_rate_limit_retry-IsAnswered :
      ((i : ℕ) → HasNoHeader (post i))
      → (k : ℕ) × (k ≤ 3)
        × ((post_with_rate_limit_retry float_ms post).0 ≡ post k)
        × ((post_with_rate_limit_retry float_ms post).1 ≡ take k (1000 ∷ 2000 ∷ 4000 ∷ []))
        × ((j : ℕ) → j < k → is_limited (post j) ≡ true)
        × (is_limited (post k) ≡ true → k ≡ 3)
  unfolding post_with_rate_limit_retry
  post_with_rate_limit_retry-IsAnswered free =
      let (k, h) = post_from-IsAnswered free 3 0 1000 in
      let here : (j : ℕ) → 0 + j ≡ j = λ j. omega arith in
      (
        k,
        h.within,
        h.answer ∙ ap post (here k),
        h.waits ∙ doubling-take k h.within,
        λ j less. sym (ap (λ i. is_limited (post i)) (here j)) ∙ h.limited j less,
        λ last. h.exhausted (ap (λ i. is_limited (post i)) (here k) ∙ last),
      )
