-- ===== src/Tutors/Reset.antt =====
-- `forgetPassword` and `resetPassword`. A reset leaves the refresh tokens of the tutor as they are.
use chain_verse_backend.Base.{
  ℕ, ◌+◌, ◌*◌, String, false, ◌||◌, Option, none, some, [], ◌∷◌, ◌++◌, ◌===◌, ltb, is_blank,
  utf16_length,
}
use chain_verse_backend.Http.{
  Action, throw_if, or_throw, gets, modify, pure, ◌>>=◌, ◌>>◌, bad_request,
}
use chain_verse_backend.Mongo.{Mongo}
use chain_verse_backend.StudentAuth.{Services, ResetToken, AuthEvent, AuthMail, reset_token_expiry}
use chain_verse_backend.StudentAuth.Reset.{mark_used, is_usable, spend}
use chain_verse_backend.Tutors.{
  TutorAccount, TutorAuth, is_tutor_email, load_tutor, save_tutor, draw_random, send_mail,
}

abbrev pub put_tutor_reset : String → ℕ → TutorAccount → TutorAccount
put_tutor_reset hash expiry x = record x {
  reset_token = some hash;
  reset_token_expiry = some expiry;
}

abbrev pub put_tutor_password : String → TutorAccount → TutorAccount
put_tutor_password hash x = record x {
  password_hash = hash;
  reset_token = none;
  reset_token_expiry = none;
}

module _ (db : Mongo) (env : Services) where
  open db use {find_one, insert, update_one, update_many}

  unfoldable pub forget_tutor_password :
      ℕ → String → Option String → Option String → Action (TutorAuth db) (Unit {0})
  unfolding draw_random save_tutor send_mail
  forget_tutor_password now email ip agent = do
    throw_if (is_blank email) (bad_request "Email is required")
    found ← gets (λ s. find_one (is_tutor_email email) s.tutors)
    elim found [
      | none ↦ pure tt
      | some tutor ↦ do
        modify (λ s. record s {
          reset_tokens =
              update_many (λ t. t.student_id === tutor.id) (mark_used now) s.reset_tokens;
        })
        token ← draw_random db env
        let hash : String = env.sha256 token
        let expires_at : ℕ = now + reset_token_expiry * 1000
        let entry : ResetToken = record {
          token_hash = hash;
          student_id = tutor.id;
          expires_at = expires_at;
          used = false;
          used_at = none;
          ip_address = ip;
          user_agent = agent;
        }
        modify (λ s. record s { reset_tokens = insert entry s.reset_tokens })
        save_tutor db env tutor (put_tutor_reset hash expires_at)
        send_mail db env tutor.email (AuthMail.reset_link tutor.email token)
    ]

  unfoldable pub reset_tutor_password :
      ℕ → String → String → Option String → Option String → Action (TutorAuth db) (Unit {0})
  unfolding load_tutor draw_random save_tutor
  reset_tutor_password now token new_password ip agent = do
    throw_if (is_blank token || is_blank new_password)
        (bad_request "Token and new password are required")
    throw_if (ltb (utf16_length new_password) 8)
        (bad_request "Password must be at least 8 characters")
    let hash : String = env.sha256 token
    found ← gets (λ s. find_one (is_usable now hash) s.reset_tokens)
    entry ← or_throw found (bad_request "Invalid or expired reset token")
    tutor ← load_tutor db env entry.student_id
    salt ← draw_random db env
    save_tutor db env tutor (put_tutor_password (env.hash_password salt new_password))
    modify (λ s. record s {
      reset_tokens = update_one (is_usable now hash) (spend now ip agent) s.reset_tokens;
    })
    modify (λ s. record s {
      events = s.events ++ AuthEvent.password_reset tutor.id tutor.email now ip ∷ [];
    })
