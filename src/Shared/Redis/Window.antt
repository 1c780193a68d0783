-- ===== src/Shared/Redis/Window.antt =====
-- `RateLimiter` over one window: exactly the first `limit` requests of an identity pass.
use ai_document_analysis.Prelude.{
  ℕ, suc, ◌+◌, ◌*◌, ◌<◌, ◌≡◌, min, none, some, List, [], ◌∷◌, ◌++◌, Text, text-Eq, length, leb, All,
  arith, if◌then◌else◌, text_eq_iff,
}
use ai_document_analysis.Shared.Redis.{ratelimit_prefix, is_allowed}
use ai_document_analysis.Shared.Redis.Server.{Redis, count_at, deadline_at}

module _ (R : Redis) (limit window_seconds : ℕ) (identity : Text) where
  open R use {Server, incr, expire, counter, incr-count, counter-incr, counter-expire}

  abbrev key : Text
  key = ratelimit_prefix ++ identity

  -- The requests of the identity, each with the times of its INCR and its EXPIRE: how many pass.
  unfoldable pub allowed_count : List (ℕ × ℕ) → Server → ℕ
  allowed_count [] s = 0
  allowed_count ((now, later) ∷ times) s =
      let ((allowed, remaining), s') = is_allowed R limit window_seconds s now later identity in
      (if allowed then 1 else 0) + allowed_count times s'

  counter-incr_self :
      (s : Server) (now : ℕ)
      → counter (incr s now key).0 key
        ≡ some (suc (count_at now (counter s key)), deadline_at now (counter s key))
  counter-incr_self s now = ground (arith, counter-incr s now key key, text_eq_iff key key)

  -- A request while the window runs is counted, and does not move its end.
  pub is_allowed_running :
      (s : Server) (now later n deadline : ℕ)
      → counter s key ≡ some (suc n, some deadline)
      → now < deadline
      → let ((allowed, remaining), s') = is_allowed R limit window_seconds s now later identity in
        (allowed ≡ leb (suc (suc n)) limit) × (counter s' key ≡ some (suc (suc n), some deadline))
  unfolding is_allowed
  is_allowed_running s now later n deadline e open_window =
      ground (arith, incr-count s now key, counter-incr_self s now)

  allowed_count_running :
      (times : List (ℕ × ℕ)) (s : Server) (n deadline : ℕ)
      → counter s key ≡ some (suc n, some deadline)
      → All (λ p. p.0 < deadline) times
      → allowed_count times s + min limit (suc n) ≡ min limit (suc n + length times)
  unfolding allowed_count
  allowed_count_running [] s n deadline e h = omega arith
  allowed_count_running ((now, later) ∷ times) s n deadline e h =
      let (answer, counted) = is_allowed_running s now later n deadline e h.0 in
      ground (arith, answer, counted, allowed_count_running times _ (suc n) deadline counted h.1)

  pub is_allowed_first :
      (s : Server) (now later : ℕ)
      → count_at now (counter s key) ≡ 0
      → deadline_at now (counter s key) ≡ none
      → let ((allowed, remaining), s') = is_allowed R limit window_seconds s now later identity in
        (allowed ≡ leb 1 limit) × (counter s' key ≡ some (1, some (later + window_seconds * 1000)))
  unfolding is_allowed
  is_allowed_first s now later idle free = ground (
    arith,
    incr-count s now key,
    counter-incr_self s now,
    counter-expire (incr s now key).0 later 1 window_seconds key key,
    text_eq_iff key key,
  )

  -- For an identity with no count that still runs, of the request that opens a window and any
  -- further requests before the window ends exactly the first `limit` pass.
  pub allowed_count-window :
      (s : Server) (now later : ℕ) (times : List (ℕ × ℕ))
      → count_at now (counter s key) ≡ 0
      → deadline_at now (counter s key) ≡ none
      → All (λ p. p.0 < later + window_seconds * 1000) times
      → allowed_count ((now, later) ∷ times) s ≡ min limit (1 + length times)
  unfolding allowed_count
  allowed_count-window s now later times idle free before =
      let (answer, counted) = is_allowed_first s now later idle free in
      ground (arith, answer, counted, allowed_count_running times _ 0 _ counted before)

  is_allowed_endless :
      (s : Server) (now later n : ℕ)
      → counter s key ≡ some (suc n, none)
      → let ((allowed, remaining), s') = is_allowed R limit window_seconds s now later identity in
        (allowed ≡ leb (suc (suc n)) limit) × (counter s' key ≡ some (suc (suc n), none))
  unfolding is_allowed
  is_allowed_endless s now later n e = ground (arith, incr-count s now key, counter-incr_self s now)

  allowed_count_endless :
      (times : List (ℕ × ℕ)) (s : Server) (n : ℕ)
      → counter s key ≡ some (suc n, none)
      → allowed_count times s + min limit (suc n) ≡ min limit (suc n + length times)
  unfolding allowed_count
  allowed_count_endless [] s n e = omega arith
  allowed_count_endless ((now, later) ∷ times) s n e =
      let (answer, counted) = is_allowed_endless s now later n e in
      ground (arith, answer, counted, allowed_count_endless times _ (suc n) counted)

  -- If the process ends between the INCR that opens a window and its EXPIRE, the count never
  -- runs out: of all later requests, however much later, fewer than `limit` ever pass.
  pub allowed_count-lost_expire :
      (s : Server) (now : ℕ) (times : List (ℕ × ℕ))
      → 0 < limit
      → count_at now (counter s key) ≡ 0
      → deadline_at now (counter s key) ≡ none
      → allowed_count times (incr s now key).0 < limit
  allowed_count-lost_expire s now times positive idle free =
      ground (arith, counter-incr_self s now, allowed_count_endless times (incr s now key).0 0)
