-- ===== src/Gateway/RateLimit/Admission.antt =====
-- Which requests the middleware lets through.
use ai_document_analysis.Prelude.{
  ℕ, zero, suc, ◌+◌, ◌-◌, ◌*◌, ◌<◌, ◌≡◌, refl, inl, inr, ◌∙◌, min, leb, take, Bool-cases, Bool,
  true, false, Option, none, some, List, [], ◌∷◌, ◌++◌, map, Text, text-Eq, text_eq, text_eq_iff,
  text_eq-append, length, All, arith, if◌then◌else◌,
}
use ai_document_analysis.Shared.Redis.{ratelimit_prefix, is_allowed}
use ai_document_analysis.Shared.Redis.Server.{Redis, count_at, deadline_at}
use ai_document_analysis.Shared.Redis.Window.{
  allowed_count, allowed_count-window, is_allowed_running, is_allowed_first,
}
use ai_document_analysis.Gateway.RateLimit.{
  Request, Answer, too_many_requests, answered, identity_by, identity_of, dispatch,
}

-- A request with an Authorization header that is not empty.
abbrev pub HasHeader : Option Text → Type 0
HasHeader none = ⊥
HasHeader (some []) = ⊥
HasHeader (some (c ∷ header)) = Unit

-- The hash of the Authorization header of a request.
abbrev pub hash_of : (Text → Text) → Option Text → Text
hash_of sha256_hex none = []
hash_of sha256_hex (some header) = sha256_hex header

identity_by-header :
    (sha256_hex : Text → Text) (host header : Option Text)
    → HasHeader header
    → identity_by sha256_hex host header ≡ hash_of sha256_hex header
identity_by-header sha256_hex host none h = absurd h
identity_by-header sha256_hex host (some []) h = absurd h
identity_by-header sha256_hex host (some (c ∷ header)) h = refl

abbrev is_answered : {A : Type 0} → Answer A → Bool
is_answered too_many_requests = false
is_answered (answered a remaining) = true

module _ (R : Redis) (sha256_hex : Text → Text) (limit : ℕ) {A W : Type 0}
    (call_next : Request → W → A × W) where
  open R use {Server, counter, incr, expire, incr-count, counter-incr, counter-expire}

  abbrev identity : Request → Text
  identity = identity_of R sha256_hex limit call_next

  -- The requests in their order, each with the times of its INCR and its EXPIRE: how many get
  -- through.
  pub admitted_count : List (ℕ × ℕ × Request) → Server → W → ℕ
  admitted_count [] s w = 0
  admitted_count ((now, later, request) ∷ requests) s w =
      let (answer, s', w') = dispatch R sha256_hex limit call_next now later request s w in
      (if is_answered answer then 1 else 0) + admitted_count requests s' w'

  -- The services after the same requests.
  pub after_all : List (ℕ × ℕ × Request) → Server → W → W
  after_all [] s w = w
  after_all ((now, later, request) ∷ requests) s w =
      let (answer, s', w') = dispatch R sha256_hex limit call_next now later request s w in
      after_all requests s' w'

  -- The services after a call for each of the requests.
  abbrev pub called : List (ℕ × ℕ × Request) → W → W
  called [] w = w
  called (r ∷ requests) w = called requests (call_next r.2 w).1

  abbrev pub times : List (ℕ × ℕ × Request) → List (ℕ × ℕ)
  times = map (λ r. (r.0, r.1))

  called-take_none : (n : ℕ) (w : W) → w ≡ called (take n []) w
  called-take_none zero w = refl
  called-take_none (suc n) w = refl

  -- For requests of one identity the middleware counts as the limiter does.
  admitted_count-same :
      (i : Text) (requests : List (ℕ × ℕ × Request)) (s : Server) (w : W)
      → All (λ r. identity r.2 ≡ i) requests
      → admitted_count requests s w ≡ allowed_count R limit 60 i (times requests) s
  unfolding admitted_count dispatch allowed_count
  admitted_count-same i [] s w h = refl
  admitted_count-same i ((now, later, request) ∷ requests) s w h =
      let after = (is_allowed R limit 60 s now later i).1 in
      ground (
        arith,
        h.0,
        admitted_count-same i requests after w h.1,
        admitted_count-same i requests after (call_next request w).1 h.1,
      )

  -- While a window runs, the services are called for what is left of the limit.
  after_all_running :
      (i : Text) (requests : List (ℕ × ℕ × Request)) (s : Server) (w : W) (n deadline : ℕ)
      → All (λ r. identity r.2 ≡ i) requests
      → counter s (ratelimit_prefix ++ i) ≡ some (suc n, some deadline)
      → All (λ p. p.0 < deadline) (times requests)
      → after_all requests s w ≡ called (take (limit - suc n) requests) w
  unfolding after_all dispatch
  after_all_running i [] s w n deadline same e h = called-take_none (limit - suc n) w
  after_all_running i ((now, later, request) ∷ requests) s w n deadline same e h =
      let (answer, counted) = is_allowed_running R limit 60 i s now later n deadline e h.0 in
      let after = (is_allowed R limit 60 s now later i).1 in
      elim (Bool-cases (leb (suc (suc n)) limit)) [
        | inl within ↦
            let left : limit - suc n ≡ suc (limit - suc (suc n)) = ground (arith, within) in
            ground (
              arith,
              same.0,
              answer,
              within,
              left,
              after_all_running i requests after (call_next request w).1 (suc n) deadline same.1
                  counted h.1,
            )
        | inr over ↦
            let left : limit - suc n ≡ 0 = ground (arith, over) in
            let left' : limit - suc (suc n) ≡ 0 = ground (arith, over) in
            ground (
              arith,
              same.0,
              answer,
              over,
              left,
              left',
              after_all_running i requests after w (suc n) deadline same.1 counted h.1,
            )
      ]

  -- Of the requests of one identity with no count that still runs, from the one that opens a window
  -- to the end of that window of 60 seconds, exactly the first `limit` reach the services, in their
  -- order, and the services are not called for the others, which are refused.
  pub admitted_count-window :
      (i : Text) (now later : ℕ) (request : Request) (requests : List (ℕ × ℕ × Request))
      (s : Server) (w : W)
      → identity request ≡ i
      → All (λ r. identity r.2 ≡ i) requests
      → count_at now (counter s (ratelimit_prefix ++ i)) ≡ 0
      → deadline_at now (counter s (ratelimit_prefix ++ i)) ≡ none
      → All (λ p. p.0 < later + 60 * 1000) (times requests)
      → let all = (now, later, request) ∷ requests in
        (after_all all s w ≡ called (take limit all) w)
        × (admitted_count all s w ≡ min limit (1 + length (times requests)))
  unfolding after_all dispatch
  admitted_count-window i now later request requests s w own same idle free before =
      let (answer, counted) = is_allowed_first R limit 60 i s now later idle free in
      let after = (is_allowed R limit 60 s now later i).1 in
      (
        elim (Bool-cases (leb 1 limit)) [
          | inl within ↦
              let left : limit ≡ suc (limit - 1) = ground (arith, within) in
              ground (
                arith,
                own,
                answer,
                within,
                left,
                after_all_running i requests after (call_next request w).1 0 _ same counted before,
              )
          | inr over ↦
              let left : limit ≡ 0 = ground (arith, over) in
              let left' : limit - 1 ≡ 0 = ground (arith, over) in
              ground (
                arith,
                own,
                answer,
                over,
                left,
                left',
                after_all_running i requests after w 0 _ same counted before,
              )
        ],
        admitted_count-same i ((now, later, request) ∷ requests) s w (own, same)
            ∙ allowed_count-window R limit 60 i s now later (times requests) idle free before,
      )

  -- Requests that are counted under identities of their own, which the server has never seen.
  abbrev AreUnseen : List (ℕ × ℕ × Request) → Server → Type 0
  AreUnseen [] s = Unit
  AreUnseen (r ∷ requests) s =
      (counter s (ratelimit_prefix ++ identity r.2) ≡ none)
      × All (λ q. text_eq (identity r.2) (identity q.2) ≡ false) requests
      × AreUnseen requests s

  -- Requests with Authorization headers whose hashes differ and have never been counted.
  abbrev pub AreFresh : List (ℕ × ℕ × Request) → Server → Type 0
  AreFresh [] s = Unit
  AreFresh (r ∷ requests) s =
      HasHeader r.2.authorization
      × (counter s (ratelimit_prefix ++ hash_of sha256_hex r.2.authorization) ≡ none)
      × All
          (λ q.
            text_eq (hash_of sha256_hex r.2.authorization) (hash_of sha256_hex q.2.authorization)
            ≡ false)
          requests
      × AreFresh requests s

  others_by_hash :
      (i : Text) (requests : List (ℕ × ℕ × Request)) (s : Server)
      → AreFresh requests s
      → All (λ q. text_eq i (hash_of sha256_hex q.2.authorization) ≡ false) requests
      → All (λ q. text_eq i (identity q.2) ≡ false) requests
  others_by_hash i [] s fresh h = tt
  others_by_hash i (r ∷ requests) s fresh h = (
    rw (identity_by-header sha256_hex r.2.client_host r.2.authorization fresh.0) h.0,
    others_by_hash i requests s fresh.3 h.1,
  )

  AreFresh-AreUnseen :
      (requests : List (ℕ × ℕ × Request)) (s : Server) → AreFresh requests s → AreUnseen requests s
  AreFresh-AreUnseen [] s h = tt
  AreFresh-AreUnseen (r ∷ requests) s h =
      rw (identity_by-header sha256_hex r.2.client_host r.2.authorization h.0)
        (h.1, others_by_hash _ requests s h.3 h.2, AreFresh-AreUnseen requests s h.3)

  -- A request under one identity does not touch the counter of another.
  counter-is_allowed :
      (s : Server) (now later : ℕ) (i j : Text)
      → counter s (ratelimit_prefix ++ i) ≡ none
      → text_eq i j ≡ false
      → counter (is_allowed R limit 60 s now later i).1 (ratelimit_prefix ++ j)
        ≡ counter s (ratelimit_prefix ++ j)
  unfolding is_allowed
  counter-is_allowed s now later i j unseen other =
      let k = ratelimit_prefix ++ i in
      ground (
        arith,
        unseen,
        incr-count s now k,
        counter-incr s now k k,
        counter-incr s now k (ratelimit_prefix ++ j),
        counter-expire (incr s now k).0 later 1 60 k (ratelimit_prefix ++ j),
        text_eq-append ratelimit_prefix i j,
        text_eq_iff k k,
        other,
      )

  is_allowed_unseen :
      (s : Server) (now later : ℕ) (i : Text)
      → 0 < limit
      → counter s (ratelimit_prefix ++ i) ≡ none
      → (is_allowed R limit 60 s now later i).0.0 ≡ true
  unfolding is_allowed
  is_allowed_unseen s now later i positive unseen =
      ground (arith, unseen, incr-count s now (ratelimit_prefix ++ i))

  still-AreUnseen :
      (s : Server) (now later : ℕ) (i : Text) (requests : List (ℕ × ℕ × Request))
      → counter s (ratelimit_prefix ++ i) ≡ none
      → All (λ q. text_eq i (identity q.2) ≡ false) requests
      → AreUnseen requests s
      → AreUnseen requests (is_allowed R limit 60 s now later i).1
  still-AreUnseen s now later i [] unseen others h = tt
  still-AreUnseen s now later i (r ∷ requests) unseen others h = (
    counter-is_allowed s now later i (identity r.2) unseen others.0 ∙ h.0,
    h.1,
    still-AreUnseen s now later i requests unseen others.1 h.2,
  )

  unseen-after_all :
      (requests : List (ℕ × ℕ × Request)) (s : Server) (w : W)
      → 0 < limit
      → AreUnseen requests s
      → (after_all requests s w ≡ called requests w)
        × (admitted_count requests s w ≡ length (times requests))
  unfolding admitted_count after_all dispatch
  unseen-after_all [] s w positive h = (refl, refl)
  unseen-after_all ((now, later, request) ∷ requests) s w positive h =
      let i = identity request in
      let after = (is_allowed R limit 60 s now later i).1 in
      let passes = is_allowed_unseen s now later i positive h.0 in
      let (rest, count) =
        unseen-after_all requests after (call_next request w).1 positive
          (still-AreUnseen s now later i requests h.0 h.1 h.2) in
      (ground (arith, passes, rest), ground (arith, passes, count))

  -- Requests with Authorization headers, whatever these are and whichever hosts send them, whose
  -- hashes differ from each other and have not been counted before, all reach the services, in
  -- their order, if the limit is positive, however many they are.
  pub admitted_count-evaded :
      (requests : List (ℕ × ℕ × Request)) (s : Server) (w : W)
      → 0 < limit
      → AreFresh requests s
      → (after_all requests s w ≡ called requests w)
        × (admitted_count requests s w ≡ length (times requests))
  admitted_count-evaded requests s w positive h =
      unseen-after_all requests s w positive (AreFresh-AreUnseen requests s h)
