-- ===== src/AuthService/Rotation.antt =====
-- `refresh` and `logout` against the blacklist: a refresh token is used once.
use ai_document_analysis.Prelude.{
  ℕ, ◌+◌, ◌-◌, ◌*◌, ◌/◌, ◌≤◌, ◌<◌, ◌≡◌, refl, sym, ◌∙◌, inl, inr, true, false, Option, none, some,
  List, ◌++◌, Text, text_eq_iff, codes, arith, Bool-cases,
}
use ai_document_analysis.Shared.Exceptions.{Exception, Result, ok, raise, ◌>>=◌}
use ai_document_analysis.Shared.Jwt.{refresh, decode_token, remaining_ttl_seconds}
use ai_document_analysis.Shared.Jwt.Tokens.{Jose, Claims}
use ai_document_analysis.Shared.Redis.{token_blacklist_prefix, revoke, is_revoked}
use ai_document_analysis.Shared.Json.{Json}
use ai_document_analysis.Shared.Redis.Server.{Redis}
use ai_document_analysis.AuthService.{TokenPair, present, refresh_tokens, logout, issue_tokens}
use ai_document_analysis.AuthService.Users.{User, get_by_id}

module _ (R : Redis) where
  open R use {Server, get, set, get-set}

  -- A revocation holds until its time to live is over.
  pub is_revoked-revoke :
      (s : Server) (now t ttl : ℕ) (jti : Text)
      → now ≤ t
      → 0 < ttl
      → t < now + ttl * 1000
      → is_revoked R (revoke R s now jti ttl) t jti ≡ true
  unfolding is_revoked revoke
  is_revoked-revoke s now t ttl jti later positive within =
      let key = token_blacklist_prefix ++ jti in
      ground (arith, get-set s now t ttl key key (Json.bool true), text_eq_iff key key)

  revoke_dead : (s : Server) (now : ℕ) (jti : Text) → revoke R s now jti 0 ≡ s
  unfolding revoke
  revoke_dead s now jti = refl

-- A refresh token as `_create_token` makes it.
pub record IsRefresh (c : Claims) (jti sub : Text) (exp : ℕ) : Type 0 where
  pub typed : c.type ≡ some refresh
  pub named : c.jti ≡ some jti
  pub owned : c.sub ≡ some sub
  pub expires : c.exp ≡ some exp

module _ (J : Jose) where
  open J use {encode, decode, decode_live}

  pub decode_token_live :
      (c : Claims) (jti sub : Text) (exp now : ℕ)
      → IsRefresh c jti sub exp
      → now < exp * 1000
      → decode_token J now (encode c) refresh ≡ ok c
  unfolding decode_token
  decode_token_live c jti sub exp now h live =
      ground (arith, decode_live c exp now, h.expires, h.typed, text_eq_iff refresh refresh)

remaining_lem :
    (c : Claims) (exp now : ℕ)
    → c.exp ≡ some exp
    → now < exp * 1000
    → remaining_ttl_seconds c now ≡ (exp * 1000 - now) / 1000
unfolding remaining_ttl_seconds
remaining_lem c exp now e live = ground arith

abbrev pub reused : Exception
reused = Exception.unauthorized (codes "This refresh token has already been used or revoked")

module _ (J : Jose) (expire_minutes : ℕ) (R : Redis) where
  open J use {encode}
  open R use {Server}

  refused_when_revoked :
      (c : Claims) (jti sub : Text) (exp t : ℕ) (a b : Text) (users : List User) (s : Server)
      → IsRefresh c jti sub exp
      → t < exp * 1000
      → is_revoked R s t jti ≡ true
      → refresh_tokens J expire_minutes R t a b (encode c) users s ≡ raise reused
  unfolding refresh_tokens
  refused_when_revoked c jti sub exp t a b users s h live revoked =
      rw (decode_token_live J c jti sub exp t h live) (ground (arith, h.named, revoked))

  pub refresh_live :
      (c : Claims) (jti sub : Text) (exp now : ℕ) (a b : Text) (users : List User) (s : Server)
      → IsRefresh c jti sub exp
      → now < exp * 1000
      → is_revoked R s now jti ≡ false
      → refresh_tokens J expire_minutes R now a b (encode c) users s ≡ (do
        found ← get_by_id sub users
        u ←
            present found
              (λ v. v.is_active)
              (Exception.unauthorized (codes "Invalid refresh token"))
        ok (
          issue_tokens J expire_minutes now a b u,
          revoke R s now jti ((exp * 1000 - now) / 1000),
        ))
  unfolding refresh_tokens
  refresh_live c jti sub exp now a b users s h live free =
      rw
        (
          decode_token_live J c jti sub exp now h live,
          remaining_lem c exp now h.expires live,
          h.named,
          h.owned,
          free,
        )
        refl

  -- What the rest of `refresh` leaves, whoever the subject turns out to be.
  left_by_rest :
      (found : Result (Option User)) (s' s'' : Server) (pair : TokenPair)
      (answer : User → Result (TokenPair × Server)) (tokens : User → TokenPair) (e : Exception)
      → ((u : User) → answer u ≡ ok (tokens u, s''))
      → (do f ← found; u ← present f (λ v. v.is_active) e; answer u) ≡ ok (pair, s')
      → s' ≡ s''
  left_by_rest (ok none) s' s'' pair answer tokens e answers h = grind arith
  left_by_rest (ok (some u)) s' s'' pair answer tokens e answers h = ground (arith, answers u)
  left_by_rest (raise e') s' s'' pair answer tokens e answers h = grind arith

  refresh-revokes :
      (c : Claims) (jti sub : Text) (exp now : ℕ) (a b : Text) (users : List User) (s s' : Server)
      (pair : TokenPair)
      → IsRefresh c jti sub exp
      → now < exp * 1000
      → refresh_tokens J expire_minutes R now a b (encode c) users s ≡ ok (pair, s')
      → s' ≡ revoke R s now jti ((exp * 1000 - now) / 1000)
  refresh-revokes c jti sub exp now a b users s s' pair h live e =
      elim (Bool-cases (is_revoked R s now jti)) [
        | inl used ↦ cc (refused_when_revoked c jti sub exp now a b users s h live used)
        | inr free ↦
            left_by_rest (get_by_id sub users) s' _ pair _ _ _ (λ u. refl)
              (sym (refresh_live c jti sub exp now a b users s h live free) ∙ e)
      ]

  -- Once a refresh with a token has succeeded at `now`, every further refresh with that token is
  -- refused as already used, whatever the users are by then, up to one second before the token
  -- expires.
  pub refresh_tokens-once :
      (c : Claims) (jti sub : Text) (exp now t : ℕ) (a b a' b' : Text) (users users' : List User)
      (s s' : Server) (pair : TokenPair)
      → IsRefresh c jti sub exp
      → refresh_tokens J expire_minutes R now a b (encode c) users s ≡ ok (pair, s')
      → now ≤ t
      → t + 1000 ≤ exp * 1000
      → refresh_tokens J expire_minutes R t a' b' (encode c) users' s' ≡ raise reused
  refresh_tokens-once c jti sub exp now t a b a' b' users users' s s' pair h e later early =
      let gone = refresh-revokes c jti sub exp now a b users s s' pair h (omega arith) e in
      refused_when_revoked c jti sub exp t a' b' users' s' h (omega arith) (
        rw gone (
          is_revoked-revoke R s now t ((exp * 1000 - now) / 1000) jti later (omega arith)
            (omega arith)))

  -- A refresh of an active user with less than one second left on the token succeeds and
  -- leaves the server as it was, so that the token can be used again.
  pub refresh_tokens-last_second :
      (c : Claims) (jti sub : Text) (exp now : ℕ) (a b : Text) (users : List User) (s : Server)
      (u : User)
      → IsRefresh c jti sub exp
      → now < exp * 1000
      → exp * 1000 < now + 1000
      → is_revoked R s now jti ≡ false
      → get_by_id sub users ≡ ok (some u)
      → u.is_active ≡ true
      → refresh_tokens J expire_minutes R now a b (encode c) users s
        ≡ ok (issue_tokens J expire_minutes now a b u, s)
  refresh_tokens-last_second c jti sub exp now a b users s u h live late free found active =
      let none_left : (exp * 1000 - now) / 1000 ≡ 0 = omega arith in
      rw
        (
          refresh_live c jti sub exp now a b users s h live free,
          found,
          active,
          none_left,
          revoke_dead R s now jti,
        )
        refl

  logout_live :
      (c : Claims) (jti sub : Text) (exp now : ℕ) (s : Server)
      → IsRefresh c jti sub exp
      → now < exp * 1000
      → logout J expire_minutes R now (encode c) s
        ≡ ok (revoke R s now jti ((exp * 1000 - now) / 1000))
  unfolding logout
  logout_live c jti sub exp now s h live =
      rw
        (
          decode_token_live J c jti sub exp now h live,
          remaining_lem c exp now h.expires live,
          h.named,
        )
        refl

  -- Logging out with a refresh token succeeds, and every later refresh with it is refused up to one
  -- second before the token expires.
  pub refresh_tokens-logout :
      (c : Claims) (jti sub : Text) (exp now t : ℕ) (a b : Text) (users : List User) (s : Server)
      → IsRefresh c jti sub exp
      → now ≤ t
      → t + 1000 ≤ exp * 1000
      → (s' : Server) × (logout J expire_minutes R now (encode c) s ≡ ok s')
        × (refresh_tokens J expire_minutes R t a b (encode c) users s' ≡ raise reused)
  refresh_tokens-logout c jti sub exp now t a b users s h later early = (
    revoke R s now jti ((exp * 1000 - now) / 1000),
    logout_live c jti sub exp now s h (omega arith),
    refused_when_revoked c jti sub exp t a b users _ h (omega arith) (
        is_revoked-revoke R s now t ((exp * 1000 - now) / 1000) jti later (omega arith)
          (omega arith)),
  )
