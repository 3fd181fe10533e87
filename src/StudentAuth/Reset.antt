-- ===== src/StudentAuth/Reset.antt =====
-- `forgetPassword` and `resetPassword`.
use chain_verse_backend.Base.{
  ℕ, ◌+◌, ◌*◌, String, Bool, true, false, not, ◌||◌, ◌&&◌, Option, none, some, [], ◌∷◌, ◌++◌, ◌===◌,
  ltb, is_blank, utf16_length, if◌then◌else◌,
}
use chain_verse_backend.Http.{
  Action, throw_if, or_throw, gets, modify, pure, ◌>>=◌, ◌>>◌, bad_request, not_found,
}
use chain_verse_backend.Mongo.{Mongo}
use chain_verse_backend.StudentAuth.{
  Services, Student, ResetToken, Auth, AuthEvent, AuthMail, has_email, find_student, save_student,
  draw, send, reset_token_expiry,
}

abbrev pub mark_used : ℕ → ResetToken → ResetToken
mark_used now t = record t { used = true; used_at = some now }

abbrev pub is_usable : ℕ → String → ResetToken → Bool
is_usable now hash t = t.token_hash === hash && (not t.used && ltb now t.expires_at)

abbrev pub put_reset : String → ℕ → Student → Student
put_reset hash expiry x = record x { reset_token = some hash; reset_token_expiry = some expiry }

abbrev pub put_password : String → Student → Student
put_password hash x = record x {
  password_hash = hash;
  reset_token = none;
  reset_token_expiry = none;
}

-- The address and the agent of the request replace those on record, if they are not falsy.
abbrev pub prefer : Option String → Option String → Option String
prefer none b = b
prefer (some a) b = if is_blank a then b else some a

abbrev pub spend : ℕ → Option String → Option String → ResetToken → ResetToken
spend now ip agent t = record t {
  used = true;
  used_at = some now;
  ip_address = prefer ip t.ip_address;
  user_agent = prefer agent t.user_agent;
}

module _ (db : Mongo) (env : Services) where
  open db use {find_one, insert, update_one, update_many, delete_many}

  unfoldable pub forget_password :
      ℕ → String → Option String → Option String → Action (Auth db) (Unit {0})
  unfolding draw save_student send
  forget_password now email ip agent = do
    throw_if (is_blank email) (bad_request "Email is required")
    found ← gets (λ s. find_one (has_email email) s.students)
    elim found [
      | none ↦ pure tt
      | some student ↦ do
        modify (λ s. record s {
          reset_tokens =
              update_many (λ t. t.student_id === student.id) (mark_used now) s.reset_tokens;
        })
        token ← draw db env
        let hash : String = env.sha256 token
        let expires_at : ℕ = now + reset_token_expiry * 1000
        modify (λ s. record s {
          reset_tokens =
              insert
                (record {
                  token_hash = hash;
                  student_id = student.id;
                  expires_at = expires_at;
                  used = false;
                  used_at = none;
                  ip_address = ip;
                  user_agent = agent;
                })
                s.reset_tokens;
        })
        save_student db env student (put_reset hash expires_at)
        send db env student.email (AuthMail.reset_link student.email token)
    ]

  unfoldable pub reset_password :
      ℕ → String → String → Option String → Option String → Action (Auth db) (Unit {0})
  unfolding find_student draw save_student
  reset_password now token new_password ip agent = do
    throw_if (is_blank token || is_blank new_password)
        (bad_request "Token and new password are required")
    throw_if (ltb (utf16_length new_password) 8)
        (bad_request "Password must be at least 8 characters")
    let hash : String = env.sha256 token
    found ← gets (λ s. find_one (is_usable now hash) s.reset_tokens)
    entry ← or_throw found (bad_request "Invalid or expired reset token")
    student ← or_throw (← find_student db env entry.student_id) (not_found "Student not found")
    salt ← draw db env
    save_student db env student (put_password (env.hash_password salt new_password))
    modify (λ s. record s {
      reset_tokens = update_one (is_usable now hash) (spend now ip agent) s.reset_tokens;
    })
    modify (λ s. record s {
      refresh_tokens = delete_many (λ t. t.student_id === student.id) s.refresh_tokens;
    })
    modify (λ s. record s {
      events = s.events ++ AuthEvent.password_reset student.id student.email now ip ∷ [];
    })
