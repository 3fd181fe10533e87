-- ===== src/Tests/Accounts.antt =====
-- Refresh tokens, logins and resets of one student, with services that compute.
use mathlib.Core.Option.{get_or}
use chain_verse_backend.Base.{
  arith, utf16_length, String, ◌≡◌, refl, none, some, true, false, [], ◌∷◌, ◌===◌, text_refl,
}
use chain_verse_backend.Http.{ok, raise, unauthorized, bad_request}
use chain_verse_backend.Mongo.Memory.{memory, run_of}
use chain_verse_backend.StudentAuth.{Services, Claims, Student, RefreshToken, ResetToken, Auth}
use chain_verse_backend.StudentAuth.Session.{login, refresh_token, revoke}
use chain_verse_backend.StudentAuth.Reset.{reset_password}
use chain_verse_backend.StudentAuth.Lockout.{login_lockout}
use chain_verse_backend.StudentAuth.Single.{reset_password_once}
use chain_verse_backend.StudentAuth.Rotation.{
  Presents, IsClosed, revoked_message, refresh_token-replay,
}

abbrev claims : String → Claims
claims j = record {
  sub = some "a";
  kind = some "refresh";
  email = none;
  role = none;
  jti = some j;
  token_family = none;
}

abbrev services : Services
services = record {
  hash_password = λ salt p. p;
  compare_password = λ p h. p === h;
  sha256 = λ t. t;
  sign = λ t c life. get_or c.jti "access";
  verify = λ t token. some (claims token);
  random = run_of;
  deliver = λ to. ok tt;
  compare_password-hash_password = λ salt p. text_refl p;
}

abbrev student : Student
student = record {
  id = "a";
  first_name = "A";
  last_name = "B";
  email = "a@b.c";
  password_hash = "secret";
  email_verified = true;
  verification_token = none;
  verification_token_expiry = none;
  verification_attempts = 0;
  last_verification_attempt = none;
  reset_token = none;
  reset_token_expiry = none;
  role = "student";
  login_attempts = 0;
  locked_until = none;
  created_at = 0;
}

abbrev token : RefreshToken
token = record {
  token_hash = "t";
  token_family = "f";
  student_id = "a";
  expires_at = 10;
  is_revoked = false;
}

abbrev vault : Auth memory
vault = record {
  students = student ∷ [];
  refresh_tokens = token ∷ [];
  reset_tokens = [];
  events = [];
  mails = [];
  minted = 1;
  drawn = 1;
}

abbrev closed_vault : Auth memory
closed_vault = record vault { refresh_tokens = revoke token ∷ [] }

vault-Presents : Presents memory services 0 "t" vault token
vault-Presents = record {
  some_text = refl;
  payload = claims "t";
  reads = refl;
  is_refresh = refl;
  found = refl;
}

closed_vault-Presents : Presents memory services 0 "t" closed_vault (revoke token)
closed_vault-Presents = record {
  some_text = refl;
  payload = claims "t";
  reads = refl;
  is_refresh = refl;
  found = refl;
}

abbrev used_vault : Auth memory
used_vault = (refresh_token memory services 0 "t" vault).1

refresh_token-replay_example :
    ((refresh_token memory services 1 "t" used_vault).0 ≡ raise (unauthorized revoked_message))
    × IsClosed "f" (refresh_token memory services 1 "t" used_vault).1.refresh_tokens
refresh_token-replay_example =
    refresh_token-replay memory services 0 1 "t" vault token (claims "t") vault-Presents refl refl

-- A student with four failed attempts, and a token to reset the password.
abbrev careless : Student
careless = record student { login_attempts = 4 }

abbrev reset_entry : ResetToken
reset_entry = record {
  token_hash = "r";
  student_id = "a";
  expires_at = 50;
  used = false;
  used_at = none;
  ip_address = none;
  user_agent = none;
}

abbrev desk : Auth memory
desk = record vault { students = careless ∷ []; reset_tokens = reset_entry ∷ [] }

login_lockout_example :
    (login memory services 900000 "a@b.c" "secret"
      (login memory services 1 "a@b.c" "guess" desk).1).0
    ≡ raise (unauthorized "Account temporarily locked. Try again later.")
login_lockout_example =
    login_lockout memory services 1 900000 "a@b.c" "guess" "secret" desk careless
      (record { some_email = refl; by_email = refl; by_id = refl }) refl refl refl (omega arith)
      refl (omega arith)

reset_done : (reset_password memory services 9 "r" "longenough" none none desk).0 ≡ ok tt
unfolding reset_password utf16_length
reset_done = refl

abbrev reset_desk : Auth memory
reset_desk = (reset_password memory services 9 "r" "longenough" none none desk).1

reset_password_once_example :
    (reset_password memory services 10 "r" "different" none none reset_desk).0
    ≡ raise (bad_request "Invalid or expired reset token")
unfolding utf16_length
reset_password_once_example =
    reset_password_once memory services 9 10 "r" "longenough" "different" none none none none desk
      reset_done (omega arith) (omega arith) refl
