-- ===== src/StudentAuth/Session.antt =====
-- `login`, `refreshToken` and `logout`.
use chain_verse_backend.Base.{
  ℕ, ◌+◌, String, Bool, true, false, not, ◌||◌, none, some, ◌===◌, ltb, leb, is_blank,
  if◌then◌else◌,
}
use chain_verse_backend.Http.{
  Action, throw, throw_if, or_throw, gets, modify, pure, ◌>>=◌, ◌>>◌, bad_request, unauthorized,
  not_found,
}
use chain_verse_backend.Mongo.{Mongo}
use chain_verse_backend.StudentAuth.{
  Services, Claims, Student, RefreshToken, TokenPair, StudentView, Auth, has_email, has_hash,
  in_family, sanitize_student, find_student, save_student, generate_token_pair,
}

-- `student.lockedUntil && student.lockedUntil > new Date()`
abbrev pub is_locked : ℕ → Student → Bool
is_locked now x = elim x.locked_until [ none ↦ false | some t ↦ ltb now t ]

-- One more failed attempt; from the fifth on, the account is locked for fifteen minutes.
abbrev pub fail_login : ℕ → Student → Student → Student
fail_login now loaded x =
    if leb 5 (loaded.login_attempts + 1)
    then record x { login_attempts = loaded.login_attempts + 1; locked_until = some (now + 900000) }
    else record x { login_attempts = loaded.login_attempts + 1 }

abbrev pub clear_lock : Student → Student
clear_lock x = record x { login_attempts = 0; locked_until = none }

abbrev pub revoke : RefreshToken → RefreshToken
revoke t = record t { is_revoked = true }

abbrev pub is_kind : String → Claims → Bool
is_kind k c = elim c.kind [ none ↦ false | some j ↦ j === k ]

module _ (db : Mongo) (env : Services) where
  open db use {find_one, update_one, update_many, delete_one}

  unfoldable pub login : ℕ → String → String → Action (Auth db) (StudentView × TokenPair)
  unfolding save_student
  login now email password = do
    throw_if (is_blank email || is_blank password) (bad_request "Email and password are required")
    found ← gets (λ s. find_one (has_email email) s.students)
    student ← or_throw found (unauthorized "Invalid email or password")
    throw_if (is_locked now student) (unauthorized "Account temporarily locked. Try again later.")
    if not (env.compare_password password student.password_hash)
        then (do
          save_student db env student (fail_login now student)
          throw (unauthorized "Invalid email or password"))
        else (do
          throw_if (not student.email_verified)
              (unauthorized "Please verify your email address before logging in.")
          saved ← save_student db env student clear_lock
          tokens ← generate_token_pair db env now saved none
          pure (sanitize_student saved, tokens))

  -- The rotation of a stored token: a revoked one revokes its whole family.
  unfoldable pub rotate : ℕ → RefreshToken → Action (Auth db) TokenPair
  unfolding find_student
  rotate now stored =
      if stored.is_revoked
      then (do
        modify (λ s. record s {
          refresh_tokens = update_many (in_family stored.token_family) revoke s.refresh_tokens;
        })
        throw (unauthorized "Refresh token has been revoked or already used"))
      else (do
        modify (λ s. record s {
          refresh_tokens = update_one (has_hash stored.token_hash) revoke s.refresh_tokens;
        })
        student ← or_throw (← find_student db env stored.student_id) (not_found "Student not found")
        generate_token_pair db env now student (some stored.token_family))

  unfoldable pub refresh_token : ℕ → String → Action (Auth db) TokenPair
  refresh_token now token = do
    throw_if (is_blank token) (bad_request "Refresh token is required")
    payload ← or_throw (env.verify now token) (unauthorized "Invalid or expired refresh token")
    throw_if (not (is_kind "refresh" payload)) (unauthorized "Invalid token type")
    found ← gets (λ s. find_one (has_hash (env.sha256 token)) s.refresh_tokens)
    stored ← or_throw found (unauthorized "Refresh token has been revoked or already used")
    rotate now stored

  unfoldable pub logout : String → Action (Auth db) (Unit {0})
  logout token = do
    throw_if (is_blank token) (bad_request "Refresh token is required")
    modify (λ s. record s {
      refresh_tokens = delete_one (has_hash (env.sha256 token)) s.refresh_tokens;
    })
