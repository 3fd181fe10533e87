-- ===== src/Tutors.antt =====
-- The state and the helpers of `TutorService`, src/tutor/tutor.service.ts, with the documents of
-- src/tutor/schemas. Its tokens live as long as those of students; in their records, `userId` is the
-- field `student_id` here, and `tutorId` too.
pub mod Account
pub mod Session
pub mod Reset
pub mod Keeping
pub mod Inactive
pub mod Replay
use chain_verse_backend.Base.{
  ℕ, ◌+◌, ◌*◌, String, Bool, true, false, Option, none, some, List, [], ◌∷◌, ◌++◌, ◌===◌, is_some,
}
use chain_verse_backend.Http.{
  Action, ok, raise, throw, throw_if, or_throw, gets, modify, pure, ◌>>=◌, ◌>>◌, cast_error,
  duplicate_key, not_found,
}
use chain_verse_backend.Mongo.{Mongo}
use chain_verse_backend.StudentAuth.{
  Services, Claims, RefreshToken, ResetToken, AuthEvent, AuthMail, TokenPair, has_hash,
  access_token_expiry, refresh_token_expiry,
}

pub data AccountStatus : Type 0 where
  pending active suspended deactivated : AccountStatus

-- A document of `Tutor`. No code sets `suspendedAt` and `suspensionReason`.
pub record TutorAccount : Type 0 where
  pub id : String
  pub first_name : String
  pub last_name : String
  pub email : String
  pub password_hash : String
  pub email_verified : Bool
  pub verification_token : Option String
  pub verification_token_expiry : Option ℕ
  pub reset_token : Option String
  pub reset_token_expiry : Option ℕ
  pub role : String
  pub bio : Option String
  pub profile_image_url : Option String
  pub specializations : List String
  pub qualifications : Option String
  pub years_of_experience : ℕ
  pub linkedin_url : Option String
  pub website_url : Option String
  pub account_status : AccountStatus
  pub total_courses : ℕ
  pub total_students : ℕ
  pub average_rating : ℕ
  pub total_reviews : ℕ
  pub created_at : ℕ

-- `sanitizeTutor`: what a response shows of a tutor.
pub record TutorView : Type 0 where
  pub id : String
  pub first_name : String
  pub last_name : String
  pub email : String
  pub email_verified : Bool
  pub role : String
  pub bio : Option String
  pub profile_image_url : Option String
  pub specializations : List String
  pub qualifications : Option String
  pub years_of_experience : ℕ
  pub linkedin_url : Option String
  pub website_url : Option String
  pub account_status : AccountStatus
  pub total_courses : ℕ
  pub total_students : ℕ
  pub average_rating : ℕ
  pub total_reviews : ℕ
  pub created_at : ℕ

abbrev pub sanitize_tutor : TutorAccount → TutorView
sanitize_tutor x = record {
  id = x.id;
  first_name = x.first_name;
  last_name = x.last_name;
  email = x.email;
  email_verified = x.email_verified;
  role = x.role;
  bio = x.bio;
  profile_image_url = x.profile_image_url;
  specializations = x.specializations;
  qualifications = x.qualifications;
  years_of_experience = x.years_of_experience;
  linkedin_url = x.linkedin_url;
  website_url = x.website_url;
  account_status = x.account_status;
  total_courses = x.total_courses;
  total_students = x.total_students;
  average_rating = x.average_rating;
  total_reviews = x.total_reviews;
  created_at = x.created_at;
}

abbrev pub is_active : AccountStatus → Bool
is_active AccountStatus.active = true
is_active AccountStatus.pending = false
is_active AccountStatus.suspended = false
is_active AccountStatus.deactivated = false

abbrev pub is_tutor : String → TutorAccount → Bool
is_tutor k x = x.id === k

abbrev pub is_tutor_email : String → TutorAccount → Bool
is_tutor_email e x = x.email === e

abbrev pub tutor_refresh_claims : String → String → String → Claims
tutor_refresh_claims id family jti = record {
  sub = some id;
  kind = some "refresh";
  email = none;
  role = none;
  jti = some jti;
  token_family = some family;
}

abbrev pub tutor_access_claims : TutorAccount → Claims
tutor_access_claims x = record {
  sub = some x.id;
  kind = none;
  email = some x.email;
  role = some x.role;
  jti = none;
  token_family = none;
}

abbrev pub tutor_verification_claims : TutorAccount → Claims
tutor_verification_claims x = record {
  sub = some x.id;
  kind = some "email_verification";
  email = some x.email;
  role = none;
  jti = none;
  token_family = none;
}

module _ (db : Mongo) where
  open db use {Store, find_one, insert, update_one, to_object_id}

  pub record TutorAuth : Type 0 where
    pub tutors : Store TutorAccount
    pub refresh_tokens : Store RefreshToken
    pub reset_tokens : Store ResetToken
    pub events : List AuthEvent
    pub mails : List AuthMail
    pub minted : ℕ
    pub drawn : ℕ

  module _ (env : Services) where
    unfoldable pub draw_random : Action TutorAuth String
    draw_random s = (ok (env.random s.drawn), record s { drawn = s.drawn + 1 })

    unfoldable pub send_mail : String → AuthMail → Action TutorAuth (Unit {0})
    send_mail to m s = elim (env.deliver to) [
      | ok _ ↦ (ok tt, record s { mails = s.mails ++ m ∷ [] })
      | raise e ↦ (raise e, s)
    ]

    -- `tutor.save()` of a loaded tutor: the paths that were set.
    unfoldable pub save_tutor :
        TutorAccount → (TutorAccount → TutorAccount) → Action TutorAuth TutorAccount
    save_tutor x f = do
      modify (λ s. record s { tutors = update_one (is_tutor x.id) f s.tutors })
      pure (f x)

    -- `tutorModel.findById`, and the exception if there is none.
    unfoldable pub load_tutor : String → Action TutorAuth TutorAccount
    load_tutor id s = elim (to_object_id id) [
      | none ↦ throw (cast_error id) s
      | some k ↦ or_throw (find_one (is_tutor k) s.tutors) (not_found "Tutor not found") s
    ]

    -- `new refreshTokenModel({ … }).save()`, with the unique index on the hash.
    unfoldable pub save_tutor_token : RefreshToken → Action TutorAuth (Unit {0})
    save_tutor_token t = do
      clash ← gets (λ s. find_one (has_hash t.token_hash) s.refresh_tokens)
      throw_if (is_some clash) duplicate_key
      modify (λ s. record s { refresh_tokens = insert t s.refresh_tokens })

    -- `generateTokenPair`, for a family that is there or a new one.
    unfoldable pub generate_tutor_pair :
        ℕ → TutorAccount → Option String → Action TutorAuth TokenPair
    unfolding draw_random save_tutor_token
    generate_tutor_pair now x family = do
      fam ← elim family [ none ↦ draw_random | some f ↦ pure f ]
      jti ← draw_random
      let access : String = env.sign now (tutor_access_claims x) access_token_expiry
      let refresh : String = env.sign now (tutor_refresh_claims x.id fam jti) refresh_token_expiry
      save_tutor_token (record {
        token_hash = env.sha256 refresh;
        token_family = fam;
        student_id = x.id;
        expires_at = now + refresh_token_expiry * 1000;
        is_revoked = false;
      })
      pure (record {
        access_token = access;
        refresh_token = refresh;
        expires_in = access_token_expiry;
      })
