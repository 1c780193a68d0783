-- ===== src/AuthService/Tests.antt =====
-- Examples: one account, one refresh token, an unsigned codec and a server in memory.
use ai_document_analysis.Prelude.{
  ℕ, ◌≡◌, refl, true, none, some, [], ◌∷◌, text_eq, text_eq_iff, codes, arith,
}
use ai_document_analysis.Shared.Exceptions.{ok, raise}
use ai_document_analysis.Shared.Jwt.{access, refresh, payload_of, decode_token}
use ai_document_analysis.Shared.Jwt.Tokens.{Claims}
use ai_document_analysis.Shared.Jwt.Plain.{plain, write}
use ai_document_analysis.Shared.Oauth.{CurrentUser, resolve_user_from_token}
use ai_document_analysis.Shared.Redis.{revoke, is_revoked}
use ai_document_analysis.Shared.Redis.Memory.{memory, empty}
use ai_document_analysis.AuthService.{
  TokenPair, register, login, logout, refresh_tokens, issue_tokens,
}
use ai_document_analysis.AuthService.Users.{
  user, User, UserCreate, Passwords, get_by_id, get_by_email, exists_by_email, exists_by_username,
  create,
}
use ai_document_analysis.AuthService.Rotation.{
  IsRefresh, reused, refresh_live, refresh_tokens-once, refresh_tokens-last_second,
  refresh_tokens-logout,
}
use ai_document_analysis.AuthService.Identity.{expected, login-resolves}
use ai_document_analysis.AuthService.Roles.{update_user_role_lem}
use ai_document_analysis.Shared.Oauth.{role_in, require_admin}
use ai_document_analysis.AuthService.{set_role, update_user_role}
use ai_document_analysis.AuthService.Users.{admin, update_role}
use ai_document_analysis.Prelude.{◌==◌, text-Eq, false, Text}
use ai_document_analysis.AuthService.Registration.{IsUnique, row, login-register}

abbrev passwords : Passwords
passwords = record {
  hash = λ salt p. p;
  verify = text_eq;
  verify-hash = λ salt p. (text_eq_iff p p).1 refl;
}

abbrev details : UserCreate
details = record {
  first_name = codes "Ada";
  last_name = codes "L";
  username = codes "ada";
  email = codes "a@b";
  password = codes "pw";
}

abbrev ada : User
ada = row passwords (codes "1") [] details

-- A refresh token that was made at 0 and expires after 5 seconds.
abbrev token : Claims
token = payload_of (codes "1") 5 refresh none 0 (codes "j")

abbrev pair_at : ℕ → TokenPair
pair_at now = issue_tokens plain 15 now [] [] ada

token-IsRefresh : IsRefresh token (codes "j") (codes "1") 5
unfolding payload_of
token-IsRefresh = record { typed = refl; named = refl; owned = refl; expires = refl }

refreshed :
    refresh_tokens plain 15 memory 1000 [] [] (write token) (ada ∷ []) empty
    ≡ ok (pair_at 1000, revoke memory empty 1000 (codes "j") 4)
unfolding get_by_id is_revoked text_eq
refreshed =
    refresh_live plain 15 memory token (codes "j") (codes "1") 5 1000 [] [] (ada ∷ []) empty
      token-IsRefresh (omega arith) refl

refresh_tokens-once_example :
    refresh_tokens plain 15 memory 3000 [] []
      (write token)
      (ada ∷ [])
      (revoke memory empty 1000 (codes "j") 4)
    ≡ raise reused
refresh_tokens-once_example =
    refresh_tokens-once plain 15 memory token (codes "j") (codes "1") 5 1000 3000 [] [] [] []
      (ada ∷ []) (ada ∷ []) empty (revoke memory empty 1000 (codes "j") 4) (pair_at 1000)
      token-IsRefresh refreshed (omega arith) (omega arith)

refresh_tokens-last_second_example :
    refresh_tokens plain 15 memory 4500 [] [] (write token) (ada ∷ []) empty
    ≡ ok (pair_at 4500, empty)
unfolding get_by_id is_revoked text_eq
refresh_tokens-last_second_example =
    refresh_tokens-last_second plain 15 memory token (codes "j") (codes "1") 5 4500 [] [] (ada ∷ [])
      empty ada token-IsRefresh (omega arith) (omega arith) refl refl refl

logged_out_refused :
    (s' : memory.Server) × (logout plain 15 memory 1000 (write token) empty ≡ ok s')
    × (refresh_tokens plain 15 memory 3000 [] [] (write token) (ada ∷ []) s' ≡ raise reused)
logged_out_refused =
    refresh_tokens-logout plain 15 memory token (codes "j") (codes "1") 5 1000 3000 [] [] (ada ∷ [])
      empty token-IsRefresh (omega arith) (omega arith)

registered : register passwords (codes "1") [] details [] ≡ ok (ada, ada ∷ [])
unfolding register exists_by_email exists_by_username create
registered = refl

login-register_example :
    (ada.role ≡ user)
    × IsUnique (ada ∷ [])
    × (login plain 15 passwords 1000 [] [] (codes "a@b") (codes "pw") (ada ∷ [])
        ≡ ok (pair_at 1000))
login-register_example =
    login-register plain 15 passwords (codes "1") [] details [] (ada ∷ []) ada 1000 [] [] tt
      registered

found_ada : get_by_email (codes "a@b") (ada ∷ []) ≡ ok (some ada)
unfolding get_by_email text_eq
found_ada = refl

matches_ada : passwords.verify (codes "pw") ada.password_hash ≡ true
matches_ada = (text_eq_iff (codes "pw") (codes "pw")).1 refl

login-resolves_example :
    (pair : TokenPair) × (caller : CurrentUser) × (login plain 15 passwords 1000 [] []
        (codes "a@b")
        (codes "pw")
        (ada ∷ [])
      ≡ ok pair)
    × (resolve_user_from_token plain (λ t. true) 60000 pair.access_token ≡ ok caller)
    × (caller.id ≡ codes "1")
    × (caller.role ≡ some (codes "user"))
    × (resolve_user_from_token plain (λ t. true) 60000 pair.refresh_token ≡ raise (expected access))
    × (decode_token plain 60000 pair.access_token refresh ≡ raise (expected refresh))
login-resolves_example =
    login-resolves plain 15 (λ t. true) passwords 1000 60000 [] [] (codes "a@b") (codes "pw")
      (ada ∷ []) ada found_ada matches_ada refl refl refl (omega arith) (omega arith)

abbrev caller : CurrentUser
caller = record { id = codes "9"; role = some (codes "admin"); raw_claims = token }

abbrev promoted : User
promoted = record ada { role = admin }

promotion : update_user_role caller (codes "1") admin (ada ∷ []) ≡ ok (promoted, promoted ∷ [])
unfolding update_user_role require_admin set_role get_by_id update_role text_eq
promotion = refl

new_role_shown :
    (before : User) × (role_in caller.role (codes "admin" ∷ []) ≡ true)
    × (get_by_id (codes "1") (ada ∷ []) ≡ ok (some before))
    × (promoted ≡ record before { role = admin })
    × (get_by_id (codes "1") (promoted ∷ []) ≡ ok (some promoted))
    × ((j : Text) → (codes "1" == j) ≡ false → get_by_id j (promoted ∷ []) ≡ get_by_id j (ada ∷ []))
new_role_shown =
    update_user_role_lem caller (codes "1") admin (ada ∷ []) (promoted ∷ []) promoted promotion
