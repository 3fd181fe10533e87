-- ===== src/StudentAuth.antt =====
-- The state and the helpers of `StudentAuthService`, src/student-auth/student-auth.service.ts, with the
-- documents of src/student-auth/schemas. What bcrypt, SHA-256, the JWT library, the random source and
-- the mail transport do is a parameter.
pub mod Account
pub mod Session
pub mod Reset
pub mod Rotation
pub mod Lockout
pub mod Single
use chain_verse_backend.Base.{
  ℕ, ◌+◌, ◌*◌, ◌<◌, String, ◌≡◌, Bool, true, false, Option, none, some, List, [], ◌∷◌, ◌++◌, ◌===◌,
  ltb, is_some,
}
use chain_verse_backend.Http.{
  Action, Result, ok, raise, throw, throw_if, gets, modify, pure, ◌>>=◌, ◌>>◌, cast_error,
  duplicate_key,
}
use chain_verse_backend.Mongo.{Mongo}

-- The payload of a token: the claims that the services write or read. Only the tokens of tutors name
-- a family.
pub record Claims : Type 0 where
  pub sub : Option String
  pub kind : Option String
  pub email : Option String
  pub role : Option String
  pub jti : Option String
  pub token_family : Option String

pub record Services : Type 0 where
  -- `bcrypt.hash` with a salt, and `bcrypt.compare`.
  pub hash_password : String → String → String
  pub compare_password : String → String → Bool
  -- `crypto.createHash('sha256')` in hexadecimal.
  pub sha256 : String → String
  -- `jwtService.sign` at a time in milliseconds with a life in seconds, and `verify` at a time.
  pub sign : ℕ → Claims → ℕ → String
  pub verify : ℕ → String → Option Claims
  -- What `randomBytes`, `randomUUID` and the salts draw, one after another.
  pub random : ℕ → String
  -- The mail transport, for a recipient.
  pub deliver : String → Result (Unit {0})
  pub compare_password-hash_password :
      (salt p : String) → compare_password p (hash_password salt p) ≡ true

pub record Student : Type 0 where
  pub id : String
  pub first_name : String
  pub last_name : String
  pub email : String
  pub password_hash : String
  pub email_verified : Bool
  pub verification_token : Option String
  pub verification_token_expiry : Option ℕ
  pub verification_attempts : ℕ
  pub last_verification_attempt : Option ℕ
  pub reset_token : Option String
  pub reset_token_expiry : Option ℕ
  pub role : String
  pub login_attempts : ℕ
  pub locked_until : Option ℕ
  pub created_at : ℕ

pub record RefreshToken : Type 0 where
  pub token_hash : String
  pub token_family : String
  pub student_id : String
  pub expires_at : ℕ
  pub is_revoked : Bool

pub record ResetToken : Type 0 where
  pub token_hash : String
  pub student_id : String
  pub expires_at : ℕ
  pub used : Bool
  pub used_at : Option ℕ
  pub ip_address : Option String
  pub user_agent : Option String

-- Events that are emitted, and mails that have been handed to the transport.
pub data AuthEvent : Type 0 where
  registered resent : (student email first_name : String) → AuthEvent
  password_reset : (student email : String) → ℕ → Option String → AuthEvent

pub data AuthMail : Type 0 where
  verification : (to token : String) → AuthMail
  reset_link : (to token : String) → AuthMail

pub record TokenPair : Type 0 where
  pub access_token : String
  pub refresh_token : String
  pub expires_in : ℕ

-- `sanitizeStudent`: what a response shows of a student.
pub record StudentView : Type 0 where
  pub id : String
  pub first_name : String
  pub last_name : String
  pub email : String
  pub email_verified : Bool
  pub role : String
  pub created_at : ℕ

abbrev pub access_token_expiry : ℕ
access_token_expiry = 3600

abbrev pub refresh_token_expiry : ℕ
refresh_token_expiry = 604800

abbrev pub verification_token_expiry : ℕ
verification_token_expiry = 86400

abbrev pub reset_token_expiry : ℕ
reset_token_expiry = 900

abbrev pub verification_cooldown : ℕ
verification_cooldown = 60

abbrev pub verification_attempt_window : ℕ
verification_attempt_window = 900

abbrev pub max_verification_attempts : ℕ
max_verification_attempts = 5

abbrev pub sanitize_student : Student → StudentView
sanitize_student s = record {
  id = s.id;
  first_name = s.first_name;
  last_name = s.last_name;
  email = s.email;
  email_verified = s.email_verified;
  role = s.role;
  created_at = s.created_at;
}

abbrev pub has_email : String → Student → Bool
has_email e s = s.email === e

abbrev pub is_student : String → Student → Bool
is_student k s = s.id === k

abbrev pub has_hash : String → RefreshToken → Bool
has_hash h t = t.token_hash === h

abbrev pub in_family : String → RefreshToken → Bool
in_family f t = t.token_family === f

module _ (db : Mongo) where
  open db use {Store, find_one, insert, update_one, to_object_id, object_id}

  pub record Auth : Type 0 where
    pub students : Store Student
    pub refresh_tokens : Store RefreshToken
    pub reset_tokens : Store ResetToken
    pub events : List AuthEvent
    pub mails : List AuthMail
    pub minted : ℕ
    pub drawn : ℕ

  module _ (env : Services) where
    unfoldable pub draw : Action Auth String
    draw s = (ok (env.random s.drawn), record s { drawn = s.drawn + 1 })

    -- A mail that the transport takes is noted; its error is thrown.
    unfoldable pub send : String → AuthMail → Action Auth (Unit {0})
    send to m s = elim (env.deliver to) [
      | ok _ ↦ (ok tt, record s { mails = s.mails ++ m ∷ [] })
      | raise e ↦ (raise e, s)
    ]

    -- `student.save()` of a loaded student: the paths that were set.
    unfoldable pub save_student : Student → (Student → Student) → Action Auth Student
    save_student x f = do
      modify (λ s. record s { students = update_one (is_student x.id) f s.students })
      pure (f x)

    -- `studentModel.findById`
    unfoldable pub find_student : String → Action Auth (Option Student)
    find_student id s = elim (to_object_id id) [
      | none ↦ throw (cast_error id) s
      | some k ↦ (ok (find_one (is_student k) s.students), s)
    ]

    abbrev pub refresh_claims : String → String → Claims
    refresh_claims id jti = record {
      sub = some id;
      kind = some "refresh";
      email = none;
      role = none;
      jti = some jti;
      token_family = none;
    }

    abbrev pub access_claims : Student → Claims
    access_claims x = record {
      sub = some x.id;
      kind = none;
      email = some x.email;
      role = some x.role;
      jti = none;
      token_family = none;
    }

    abbrev pub verification_claims : Student → Claims
    verification_claims x = record {
      sub = some x.id;
      kind = some "email_verification";
      email = some x.email;
      role = none;
      jti = none;
      token_family = none;
    }

    -- `new refreshTokenModel({ … }).save()`, with the unique index on the hash.
    unfoldable pub save_refresh_token : RefreshToken → Action Auth (Unit {0})
    save_refresh_token t = do
      clash ← gets (λ s. find_one (has_hash t.token_hash) s.refresh_tokens)
      throw_if (is_some clash) duplicate_key
      modify (λ s. record s { refresh_tokens = insert t s.refresh_tokens })

    -- `generateTokenPair`, for a family that is there or a new one.
    unfoldable pub generate_token_pair : ℕ → Student → Option String → Action Auth TokenPair
    unfolding draw save_refresh_token
    generate_token_pair now x family = do
      fam ← elim family [ none ↦ draw | some f ↦ pure f ]
      jti ← draw
      let access : String = env.sign now (access_claims x) access_token_expiry
      let refresh : String = env.sign now (refresh_claims x.id jti) refresh_token_expiry
      save_refresh_token (record {
        token_hash = env.sha256 refresh;
        token_family = fam;
        student_id = x.id;
        expires_at = now + refresh_token_expiry * 1000;
        is_revoked = false;
      })
      pure (record {
        access_token = access;
        refresh_token = refresh;
        expires_in = access_token_expiry;
      })
