-- ===== src/Tutors/Session.antt =====
-- `login`, and `refreshToken` and `logout` by the later of their two declarations, which is the one
-- that runs.
use chain_verse_backend.Base.{ℕ, String, not, ◌||◌, Option, none, some, is_blank, if◌then◌else◌}
use chain_verse_backend.Http.{
  Action, throw, throw_if, or_throw, gets, modify, pure, ◌>>=◌, ◌>>◌, bad_request, unauthorized,
}
use chain_verse_backend.Mongo.{Mongo}
use chain_verse_backend.StudentAuth.{Services, Claims, RefreshToken, TokenPair, has_hash, in_family}
use chain_verse_backend.StudentAuth.Session.{is_kind, revoke}
use chain_verse_backend.Tutors.{
  TutorView, TutorAuth, sanitize_tutor, is_active, is_tutor_email, load_tutor, generate_tutor_pair,
}

-- `payload.family || stored?.family`, none where the test of it fails.
abbrev pub family_to_close : Claims → Option RefreshToken → Option String
family_to_close payload stored =
    let kept : Option String = elim stored [
      | none ↦ none
      | some t ↦ if is_blank t.token_family then none else some t.token_family
    ] in
    elim payload.token_family [ none ↦ kept | some f ↦ if is_blank f then kept else some f ]

module _ (db : Mongo) (env : Services) where
  open db use {find_one, update_one, update_many}

  unfoldable pub login_tutor : ℕ → String → String → Action (TutorAuth db) (TutorView × TokenPair)
  login_tutor now email password = do
    throw_if (is_blank email || is_blank password) (bad_request "Email and password are required")
    found ← gets (λ s. find_one (is_tutor_email email) s.tutors)
    tutor ← or_throw found (unauthorized "Invalid email or password")
    throw_if (not (env.compare_password password tutor.password_hash))
        (unauthorized "Invalid email or password")
    throw_if (not tutor.email_verified) (unauthorized "Please verify your email before logging in")
    throw_if (not (is_active tutor.account_status))
        (unauthorized "Your account is not active. Please contact support.")
    tokens ← generate_tutor_pair db env now tutor none
    pure (sanitize_tutor tutor, tokens)

  -- A token that is not on record or is revoked: the family is revoked.
  unfoldable pub deny : Claims → Option RefreshToken → Action (TutorAuth db) TokenPair
  deny payload stored = do
    modify (λ s. elim (family_to_close payload stored) [
      | none ↦ s
      | some f ↦ record s { refresh_tokens = update_many (in_family f) revoke s.refresh_tokens }
    ])
    throw (unauthorized "Refresh token has been revoked or already used")

  unfoldable pub renew : ℕ → RefreshToken → Action (TutorAuth db) TokenPair
  unfolding load_tutor
  renew now stored = do
    modify (λ s. record s {
      refresh_tokens = update_one (has_hash stored.token_hash) revoke s.refresh_tokens;
    })
    tutor ← load_tutor db env stored.student_id
    throw_if (not (is_active tutor.account_status)) (unauthorized "Tutor account is not active")
    generate_tutor_pair db env now tutor (some stored.token_family)

  unfoldable pub refresh_tutor_token : ℕ → String → Action (TutorAuth db) TokenPair
  refresh_tutor_token now token = do
    throw_if (is_blank token) (bad_request "Refresh token is required")
    payload ← or_throw (env.verify now token) (unauthorized "Invalid or expired refresh token")
    throw_if (not (is_kind "refresh" payload)) (unauthorized "Invalid token type")
    stored ← gets (λ s. find_one (has_hash (env.sha256 token)) s.refresh_tokens)
    elim stored [
      | none ↦ deny payload none
      | some t ↦ if t.is_revoked then deny payload (some t) else renew now t
    ]

  unfoldable pub logout_tutor : String → Action (TutorAuth db) (Unit {0})
  logout_tutor token = do
    throw_if (is_blank token) (bad_request "Refresh token is required")
    modify (λ s. record s {
      refresh_tokens = update_one (has_hash (env.sha256 token)) revoke s.refresh_tokens;
    })
