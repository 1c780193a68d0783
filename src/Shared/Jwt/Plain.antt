-- ===== src/Shared/Jwt/Plain.antt =====
-- A codec of tokens for the examples, which writes the claims as they are, unsigned. It has the
-- laws that the interface asks for.
use ai_document_analysis.Prelude.{
  ℕ, zero, suc, ◌+◌, ◌*◌, ◌≤◌, ◌<◌, ◌≡◌, refl, ap, Option, none, some, [], ◌∷◌, ◌++◌, Text, length,
  take, drop, ltb, arith, if◌then◌else◌,
}
use ai_document_analysis.Shared.Jwt.Tokens.{Jose, Claims}

-- A field is its length, or a marker where it is missing, with its text, before the rest.
put : Option Text → Text → Text
put none rest = 0 ∷ rest
put (some t) rest = 1 ∷ length t ∷ t ++ rest

put_number : Option ℕ → Text → Text
put_number none rest = 0 ∷ rest
put_number (some n) rest = 1 ∷ n ∷ rest

field : Text → Option Text × Text
field (suc marker ∷ n ∷ rest) = (some (take n rest), drop n rest)
field (zero ∷ rest) = (none, rest)
field t = (none, [])

number : Text → Option ℕ × Text
number (suc marker ∷ n ∷ rest) = (some n, rest)
number (zero ∷ rest) = (none, rest)
number t = (none, [])

take-length : (t rest : Text) → take (length t) (t ++ rest) ≡ t
take-length [] rest = refl
take-length (c ∷ t) rest = ground (arith, take-length t rest)

drop-length : (t rest : Text) → drop (length t) (t ++ rest) ≡ rest
drop-length [] rest = refl
drop-length (c ∷ t) rest = ground (arith, drop-length t rest)

field-put : (o : Option Text) (rest : Text) → field (put o rest) ≡ (o, rest)
unfolding field put
field-put none rest = refl
field-put (some t) rest = rw (take-length t rest, drop-length t rest) refl

number-put : (o : Option ℕ) (rest : Text) → number (put_number o rest) ≡ (o, rest)
unfolding number put_number
number-put none rest = refl
number-put (some n) rest = refl

unfoldable pub write : Claims → Text
unfolding put put_number
write c =
    put c.sub
      (put c.type (put c.jti (put_number c.iat (put_number c.exp (put c.email (put c.role []))))))

read : Text → Claims
unfolding field number
read t =
    let (sub, t1) = field t in
    let (type, t2) = field t1 in
    let (jti, t3) = field t2 in
    let (iat, t4) = number t3 in
    let (exp, t5) = number t4 in
    let (email, t6) = field t5 in
    let (role, t7) = field t6 in
    record { sub = sub; type = type; jti = jti; iat = iat; exp = exp; email = email; role = role }

read-write : (c : Claims) → read (write c) ≡ c
unfolding read write
read-write c =
    rw
      (
        field-put c.sub _,
        field-put c.type _,
        field-put c.jti _,
        number-put c.iat _,
        number-put c.exp _,
        field-put c.email _,
        field-put c.role _,
      )
      refl

abbrev while_live : ℕ → Claims → Option ℕ → Option Claims
while_live now c none = some c
while_live now c (some exp) = if ltb now (exp * 1000) then some c else none

judge : ℕ → Claims → Option Claims
judge now c = while_live now c c.exp

while_live_lem :
    (c : Claims) (exp now : ℕ) → c.exp ≡ some exp → now < exp * 1000 → judge now c ≡ some c
unfolding judge
while_live_lem c exp now e live = ground arith

while_live_over :
    (c : Claims) (exp now : ℕ) → c.exp ≡ some exp → (exp + 1) * 1000 ≤ now → judge now c ≡ none
unfolding judge
while_live_over c exp now e over = ground arith

unfoldable pub decode : ℕ → Text → Option Claims
unfolding read judge
decode now t = judge now (read t)

pub decode_live_lem :
    (c : Claims) (exp now : ℕ) → c.exp ≡ some exp → now < exp * 1000 → decode now (write c) ≡ some c
unfolding decode
decode_live_lem c exp now e live =
    rw (ap (judge now) (read-write c)) (while_live_lem c exp now e live)

pub decode_over :
    (c : Claims) (exp now : ℕ)
    → c.exp ≡ some exp
    → (exp + 1) * 1000 ≤ now
    → decode now (write c) ≡ none
unfolding decode
decode_over c exp now e over = rw (ap (judge now) (read-write c)) (while_live_over c exp now e over)

abbrev pub plain : Jose
plain = record {
  encode = write;
  decode = decode;
  decode_live = decode_live_lem;
  decode_expired = decode_over;
}
