-- ===== src/Tutors/Account.antt =====
-- `create`, `verifyEmail`, `getProfile` and `updateProfile`.
use mathlib.Core.Option.{get_or}
use chain_verse_backend.Base.{
  ℕ, ◌+◌, ◌*◌, String, true, false, not, ◌||◌, Option, none, some, List, [], ltb, is_some, is_blank,
  utf16_length,
}
use chain_verse_backend.Http.{
  Action, ok, raise, throw_if, or_throw, gets, pure, ◌>>=◌, ◌>>◌, bad_request, not_found, conflict,
  duplicate_key,
}
use chain_verse_backend.Email.{is_email}
use chain_verse_backend.Mongo.{Mongo}
use chain_verse_backend.StudentAuth.{Services, TokenPair, AuthMail, verification_token_expiry}
use chain_verse_backend.StudentAuth.Account.{is_claim}
use chain_verse_backend.Tutors.{
  AccountStatus, TutorAccount, TutorView, TutorAuth, sanitize_tutor, is_tutor_email,
  tutor_verification_claims, draw_random, send_mail, save_tutor, load_tutor, generate_tutor_pair,
}

pub record CreateTutorDto : Type 0 where
  pub first_name : String
  pub last_name : String
  pub email : String
  pub password : String

pub record UpdateTutorProfileDto : Type 0 where
  pub bio : Option String
  pub profile_image_url : Option String
  pub specializations : Option (List String)
  pub qualifications : Option String
  pub years_of_experience : Option ℕ
  pub linkedin_url : Option String
  pub website_url : Option String

abbrev pub new_tutor : ℕ → String → CreateTutorDto → String → TutorAccount
new_tutor now id d hash = record {
  id = id;
  first_name = d.first_name;
  last_name = d.last_name;
  email = d.email;
  password_hash = hash;
  email_verified = false;
  verification_token = none;
  verification_token_expiry = none;
  reset_token = none;
  reset_token_expiry = none;
  role = "tutor";
  bio = none;
  profile_image_url = none;
  specializations = [];
  qualifications = none;
  years_of_experience = 0;
  linkedin_url = none;
  website_url = none;
  account_status = AccountStatus.pending;
  total_courses = 0;
  total_students = 0;
  average_rating = 0;
  total_reviews = 0;
  created_at = now;
}

abbrev pub put_tutor_token : ℕ → String → TutorAccount → TutorAccount
put_tutor_token now token x = record x {
  verification_token = some token;
  verification_token_expiry = some (now + verification_token_expiry * 1000);
}

abbrev pub set_tutor_verified : TutorAccount → TutorAccount
set_tutor_verified x = record x {
  email_verified = true;
  verification_token = none;
  verification_token_expiry = none;
}

-- `Object.assign(tutor, dto)`, for the fields that the validation of requests lets through: one that
-- was not sent is an own field of the instance too, and unsets the tutor's to the schema's default.
abbrev pub assign_profile : UpdateTutorProfileDto → TutorAccount → TutorAccount
assign_profile d x = record x {
  bio = d.bio;
  profile_image_url = d.profile_image_url;
  specializations = get_or d.specializations [];
  qualifications = d.qualifications;
  years_of_experience = get_or d.years_of_experience 0;
  linkedin_url = d.linkedin_url;
  website_url = d.website_url;
}

module _ (db : Mongo) (env : Services) where
  open db use {find_one, insert, object_id}

  -- `new tutorModel({ … }).save()`, with the unique index on the address.
  unfoldable pub insert_tutor : ℕ → CreateTutorDto → String → Action (TutorAuth db) TutorAccount
  insert_tutor now dto hash s =
      let x : TutorAccount = new_tutor now (object_id s.minted) dto hash in
      elim (find_one (is_tutor_email dto.email) s.tutors) [
        | some _ ↦ (raise duplicate_key, record s { minted = s.minted + 1 })
        | none ↦ (ok x, record s { tutors = insert x s.tutors; minted = s.minted + 1 })
      ]

  unfoldable pub create_tutor : ℕ → CreateTutorDto → Action (TutorAuth db) (TutorView × TokenPair)
  unfolding draw_random insert_tutor save_tutor send_mail
  create_tutor now dto = do
    throw_if
        (is_blank dto.first_name
          || is_blank dto.last_name
          || is_blank dto.email
          || is_blank dto.password)
        (bad_request "firstName, lastName, email, and password are required")
    throw_if (not (is_email dto.email)) (bad_request "Invalid email format")
    throw_if (ltb (utf16_length dto.password) 8)
        (bad_request "Password must be at least 8 characters")
    existing ← gets (λ s. find_one (is_tutor_email dto.email) s.tutors)
    throw_if (is_some existing) (conflict "Email already registered")
    salt ← draw_random db env
    tutor ← insert_tutor now dto (env.hash_password salt dto.password)
    let token : String = env.sign now (tutor_verification_claims tutor) verification_token_expiry
    saved ← save_tutor db env tutor (put_tutor_token now token)
    send_mail db env tutor.email (AuthMail.verification tutor.email token)
    tokens ← generate_tutor_pair db env now saved none
    pure (sanitize_tutor saved, tokens)

  unfoldable pub verify_tutor_email : ℕ → String → Action (TutorAuth db) (Unit {0})
  unfolding save_tutor load_tutor
  verify_tutor_email now token = do
    throw_if (is_blank token) (bad_request "Verification token is required")
    payload ← or_throw (env.verify now token) (bad_request "Invalid or expired verification token")
    throw_if (not (is_claim "email_verification" payload.kind))
        (bad_request "Invalid verification token type")
    id ← or_throw payload.sub (not_found "Tutor not found")
    tutor ← load_tutor db env id
    throw_if (not (is_claim tutor.email payload.email))
        (bad_request "Token does not match tutor email")
    throw_if tutor.email_verified (bad_request "Email already verified")
    save_tutor db env tutor set_tutor_verified
    pure tt

  unfoldable pub get_profile : String → Action (TutorAuth db) TutorView
  unfolding load_tutor
  get_profile tutor_id = do tutor ← load_tutor db env tutor_id; pure (sanitize_tutor tutor)

  unfoldable pub update_profile : String → UpdateTutorProfileDto → Action (TutorAuth db) TutorView
  unfolding load_tutor save_tutor
  update_profile tutor_id dto = do
    tutor ← load_tutor db env tutor_id
    saved ← save_tutor db env tutor (assign_profile dto)
    pure (sanitize_tutor saved)
