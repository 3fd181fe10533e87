-- ===== src/StudentAuth/Account.antt =====
-- `create`, `verifyEmail` and `resendVerificationEmail`.
use chain_verse_backend.Base.{
  ℕ, ◌+◌, ◌*◌, ◌/◌, String, Bool, true, false, not, ◌||◌, ◌&&◌, Option, none, some, [], ◌∷◌, ◌++◌,
  ◌===◌, ltb, leb, is_some, is_blank, utf16_length, if◌then◌else◌,
}
use chain_verse_backend.Http.{
  Action, ok, raise, throw_if, or_throw, gets, modify, pure, ◌>>=◌, ◌>>◌, bad_request, not_found,
  conflict, duplicate_key,
}
use chain_verse_backend.Email.{is_email}
use chain_verse_backend.Mongo.{Mongo}
use chain_verse_backend.StudentAuth.{
  Services, Student, TokenPair, StudentView, Auth, AuthEvent, AuthMail, has_email, sanitize_student,
  find_student, save_student, generate_token_pair, draw, send, verification_claims,
  verification_token_expiry, verification_cooldown, verification_attempt_window,
  max_verification_attempts,
}

pub record CreateStudentDto : Type 0 where
  pub first_name : String
  pub last_name : String
  pub email : String
  pub password : String

abbrev pub is_incomplete : CreateStudentDto → Bool
is_incomplete d =
    is_blank d.first_name || is_blank d.last_name || is_blank d.email || is_blank d.password

abbrev pub new_student : ℕ → String → CreateStudentDto → String → Student
new_student now id d hash = record {
  id = id;
  first_name = d.first_name;
  last_name = d.last_name;
  email = d.email;
  password_hash = hash;
  email_verified = false;
  verification_token = none;
  verification_token_expiry = none;
  verification_attempts = 0;
  last_verification_attempt = none;
  reset_token = none;
  reset_token_expiry = none;
  role = "student";
  login_attempts = 0;
  locked_until = none;
  created_at = now;
}

abbrev pub put_token : ℕ → String → Student → Student
put_token now token x = record x {
  verification_token = some token;
  verification_token_expiry = some (now + verification_token_expiry * 1000);
}

-- The last attempt, in seconds, lies less than `span` seconds back. An attempt at 0 does not count.
abbrev pub is_recent : ℕ → ℕ → Student → Bool
is_recent now_s span x = elim x.last_verification_attempt [
  | none ↦ false
  | some last ↦ ltb 0 last && ltb now_s (last + span)
]

abbrev pub attempts_in_window : ℕ → Student → ℕ
attempts_in_window now_s x =
    if is_recent now_s verification_attempt_window x then x.verification_attempts else 0

abbrev pub note_attempt : ℕ → Student → Student → Student
note_attempt now_s loaded x = record x {
  verification_attempts = loaded.verification_attempts + 1;
  last_verification_attempt = some now_s;
}

abbrev pub set_verified : Student → Student
set_verified x = record x {
  email_verified = true;
  verification_token = none;
  verification_token_expiry = none;
  verification_attempts = 0;
  last_verification_attempt = none;
}

abbrev pub put_resent : ℕ → String → Student → Student
put_resent now token x = record x {
  verification_token = some token;
  verification_token_expiry = some (now + verification_token_expiry * 1000);
  verification_attempts = 0;
  last_verification_attempt = some (now / 1000);
}

abbrev pub is_claim : String → Option String → Bool
is_claim k none = false
is_claim k (some j) = j === k

module _ (db : Mongo) (env : Services) where
  open db use {find_one, insert, object_id}

  abbrev pub verification_token : ℕ → Student → String
  verification_token now x = env.sign now (verification_claims db env x) verification_token_expiry

  -- `new studentModel({ … }).save()`, with the unique index on the address.
  unfoldable pub insert_student : ℕ → CreateStudentDto → String → Action (Auth db) Student
  insert_student now dto hash s =
      let x : Student = new_student now (object_id s.minted) dto hash in
      elim (find_one (has_email dto.email) s.students) [
        | some _ ↦ (raise duplicate_key, record s { minted = s.minted + 1 })
        | none ↦ (ok x, record s { students = insert x s.students; minted = s.minted + 1 })
      ]

  unfoldable pub create : ℕ → CreateStudentDto → Action (Auth db) (StudentView × TokenPair)
  unfolding draw insert_student save_student send
  create now dto = do
    throw_if (is_incomplete dto)
        (bad_request "firstName, lastName, email, and password are required")
    throw_if (not (is_email dto.email)) (bad_request "Invalid email format")
    throw_if (ltb (utf16_length dto.password) 8)
        (bad_request "Password must be at least 8 characters")
    existing ← gets (λ s. find_one (has_email dto.email) s.students)
    throw_if (is_some existing) (conflict "Email already registered")
    salt ← draw db env
    student ← insert_student now dto (env.hash_password salt dto.password)
    let token : String = verification_token now student
    saved ← save_student db env student (put_token now token)
    send db env student.email (AuthMail.verification student.email token)
    modify (λ s. record s {
      events = s.events ++ AuthEvent.registered student.id student.email student.first_name ∷ [];
    })
    tokens ← generate_token_pair db env now saved none
    pure (sanitize_student saved, tokens)

  unfoldable pub verify_email : ℕ → String → Action (Auth db) (Unit {0})
  unfolding save_student
  verify_email now token = do
    throw_if (is_blank token) (bad_request "Verification token is required")
    payload ← or_throw (env.verify now token) (bad_request "Invalid or expired verification token")
    throw_if (not (is_claim "email_verification" payload.kind))
        (bad_request "Invalid verification token type")
    id ← or_throw payload.sub (not_found "Student not found")
    student ← or_throw (← find_student db env id) (not_found "Student not found")
    throw_if (not (is_claim student.email payload.email))
        (bad_request "Token does not match student email")
    throw_if student.email_verified (bad_request "Email already verified")
    let now_s : ℕ = now / 1000
    throw_if (is_recent now_s verification_cooldown student)
        (bad_request "Too many verification attempts. Please wait before trying again.")
    throw_if (leb max_verification_attempts (attempts_in_window now_s student)) (
        bad_request
          "Maximum verification attempts exceeded. Please request a new verification token.")
    noted ← save_student db env student (note_attempt now_s student)
    save_student db env noted set_verified
    pure tt

  unfoldable pub resend_verification_email : ℕ → String → Action (Auth db) (Unit {0})
  unfolding save_student
  resend_verification_email now email = do
    throw_if (is_blank email) (bad_request "Email is required")
    throw_if (not (is_email email)) (bad_request "Invalid email format")
    found ← gets (λ s. find_one (has_email email) s.students)
    elim found [
      | none ↦ pure tt
      | some student ↦ do
        throw_if student.email_verified (bad_request "Email already verified")
        throw_if (is_recent (now / 1000) verification_cooldown student)
            (bad_request "Please wait before requesting another verification email.")
        save_student db env student (put_resent now (verification_token now student))
        modify (λ s. record s {
          events = s.events ++ AuthEvent.resent student.id student.email student.first_name ∷ [];
        })
    ]
