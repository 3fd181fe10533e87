-- ===== src/StudentAuth/Lockout.antt =====
-- `login`: the lock of an account after failed attempts.
use chain_verse_backend.Base.{
  ℕ, ◌+◌, ◌≤◌, ◌<◌, String, ◌≡◌, true, false, some, arith, first, first-amend_found, is_blank,
  first-passes,
}
use chain_verse_backend.Http.{raise, unauthorized}
use chain_verse_backend.Mongo.{Mongo}
use chain_verse_backend.StudentAuth.{Services, Student, Auth, has_email, is_student}
use chain_verse_backend.StudentAuth.Session.{login, is_locked, fail_login}

module _ (db : Mongo) (env : Services) where
  open db use {all, update_one, find_one_lem, all-update_one}

  -- The account of an address, which its id finds too.
  pub record Has (email : String) (s : Auth db) (x : Student) : Type 0 where
    pub some_email : is_blank email ≡ false
    pub by_email : first (has_email email) (all s.students) ≡ some x
    pub by_id : first (is_student x.id) (all s.students) ≡ some x

  -- The state after a failed attempt.
  abbrev pub failed_login : ℕ → Student → Auth db → Auth db
  failed_login now x s = record s {
    students = update_one (is_student x.id) (fail_login now x) s.students;
  }

  login_wrong :
      (now : ℕ) (email p : String) (s : Auth db) (x : Student)
      → Has email s x
      → is_blank p ≡ false
      → is_locked now x ≡ false
      → env.compare_password p x.password_hash ≡ false
      → login db env now email p s
        ≡ (raise (unauthorized "Invalid email or password"), failed_login now x s)
  unfolding login
  login_wrong now email p s x h np nl bad =
      ground (arith, find_one_lem (has_email email) s.students)

  fail_login-email :
      (now : ℕ) (email : String) (x : Student)
      → has_email email x ≡ true
      → has_email email (fail_login now x x) ≡ true
  fail_login-email now email x h = ground arith

  failed_login-first :
      (now : ℕ) (email : String) (s : Auth db) (x : Student)
      → Has email s x
      → first (has_email email) (all (failed_login now x s).students) ≡ some (fail_login now x x)
  failed_login-first now email s x h = rw all-update_one (
      first-amend_found (has_email email) (is_student x.id) (fail_login now x) (all s.students) x
        h.by_email h.by_id
        (fail_login-email now email x
          (first-passes (has_email email) (all s.students) x h.by_email)))

  login-locked :
      (now : ℕ) (email p : String) (s : Auth db) (x : Student)
      → is_blank email ≡ false
      → is_blank p ≡ false
      → first (has_email email) (all s.students) ≡ some x
      → is_locked now x ≡ true
      → (login db env now email p s).0
        ≡ raise (unauthorized "Account temporarily locked. Try again later.")
  unfolding login
  login-locked now email p s x ne np f l = ground (arith, find_one_lem (has_email email) s.students)

  fail_login-locked :
      (now later : ℕ) (x : Student)
      → 4 ≤ x.login_attempts
      → later < now + 900000
      → is_locked later (fail_login now x x) ≡ true
  fail_login-locked now later x m e = ground arith

  -- Where an address and both passwords are not empty, the account that the address finds is
  -- the one that its id finds, is not locked and has four failed attempts or more, a login
  -- with a wrong password locks it: every login with that address in the next 900,000
  -- milliseconds is refused as locked, also with the right password.
  pub login_lockout :
      (now later : ℕ) (email p q : String) (s : Auth db) (x : Student)
      → Has email s x
      → is_blank p ≡ false
      → is_blank q ≡ false
      → is_locked now x ≡ false
      → 4 ≤ x.login_attempts
      → env.compare_password p x.password_hash ≡ false
      → later < now + 900000
      → (login db env later email q (login db env now email p s).1).0
        ≡ raise (unauthorized "Account temporarily locked. Try again later.")
  login_lockout now later email p q s x h np nq nl many bad soon =
      rw (login_wrong now email p s x h np nl bad) (
        login-locked later email q (failed_login now x s) (fail_login now x x) h.some_email nq
          (failed_login-first now email s x h) (fail_login-locked now later x many soon))
