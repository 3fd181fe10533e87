-- ===== src/StudentAuth/Single.antt =====
-- What a successful `resetPassword` leaves behind, and `logout`.
use mathlib.Core.Path.{subst}
use chain_verse_backend.Base.{
  text_refl, sym, first-passes, first-amend_found, ℕ, ◌≤◌, String, ◌≡◌, refl, inl, inr, Bool, true,
  false, Option, none, some, List, [], ◌∷◌, arith, eq_iff, first, tally, amend_first, drop_first,
  Option-cases, tally-drop_first, tally_zero→first, tally-drop_all, is_blank, utf16_length, ◌===◌,
}
use chain_verse_backend.Http.{ok, raise, unauthorized, bad_request}
use chain_verse_backend.Mongo.{Mongo}
use chain_verse_backend.StudentAuth.{
  Services, Claims, Student, ResetToken, Auth, has_hash, is_student,
}
use chain_verse_backend.StudentAuth.Session.{refresh_token, logout, is_kind}
use chain_verse_backend.StudentAuth.Reset.{reset_password, is_usable, spend, put_password}

abbrev pub is_reset : String → ResetToken → Bool
is_reset h t = t.token_hash === h

no_usable :
    (later : ℕ) (h : String) (l : List ResetToken)
    → tally (is_reset h) l ≡ 0
    → first (is_usable later h) l ≡ none
no_usable later h [] e = refl
no_usable later h (t ∷ l) e = ground (arith, no_usable later h l)

-- The only token of a hash, once spent, is not usable again.
spent-first :
    (now later : ℕ) (h : String) (ip agent : Option String) (l : List ResetToken) (t : ResetToken)
    → tally (is_reset h) l ≤ 1
    → first (is_usable now h) l ≡ some t
    → first (is_usable later h) (amend_first (is_usable now h) (spend now ip agent) l) ≡ none
spent-first now later h ip agent [] t one f = refl
spent-first now later h ip agent (x ∷ l) t one f =
    ground (arith, no_usable later h l, no_usable now h l, spent-first now later h ip agent l t)

id_of_first :
    (k : String) (l : List Student) (x : Student) → first (is_student k) l ≡ some x → x.id ≡ k
id_of_first k l x f = ground (arith, eq_iff x.id k, first-passes (is_student k) l x f)

-- A student found by an id is found by its own.
own_id :
    (k : String) (l : List Student) (x : Student)
    → first (is_student k) l ≡ some x
    → first (is_student x.id) l ≡ some x
own_id k l x f = subst (λ y. first (is_student y) l ≡ some x) (sym (id_of_first k l x f)) f

module _ (db : Mongo) (env : Services) where
  open db use {
    all, to_object_id, find_one_lem, all-update_one, all-delete_one, all-delete_many, update_one,
    delete_many,
  }

  -- A reset that goes through has spent a token that was usable, and removed the refresh tokens of
  -- its student.
  reset_password-done :
      (now : ℕ) (token p : String) (ip agent : Option String) (s : Auth db)
      → (reset_password db env now token p ip agent s).0 ≡ ok tt
      → (t : ResetToken) × (x : Student) × (first
            (is_usable now (env.sha256 token))
            (all s.reset_tokens)
          ≡ some t)
        × ((reset_password db env now token p ip agent s).1.reset_tokens
            ≡ update_one (is_usable now (env.sha256 token)) (spend now ip agent) s.reset_tokens)
        × ((reset_password db env now token p ip agent s).1.refresh_tokens
            ≡ delete_many (λ r. r.student_id === x.id) s.refresh_tokens)
        × (is_blank token ≡ false)
        × ((reset_password db env now token p ip agent s).1.students
            ≡ update_one
                (is_student x.id)
                (put_password (env.hash_password (env.random s.drawn) p))
                s.students)
        × (first (is_student x.id) (all s.students) ≡ some x)
        × (to_object_id t.student_id ≡ some x.id)
  unfolding reset_password
  reset_password-done now token p ip agent s h =
      elim (Option-cases (first (is_usable now (env.sha256 token)) (all s.reset_tokens))) [
        | inl bad ↦ ground (arith, find_one_lem (is_usable now (env.sha256 token)) s.reset_tokens)
        | inr (t, f) ↦ elim (Option-cases (to_object_id t.student_id)) [
          | inl bad ↦ ground (arith, find_one_lem (is_usable now (env.sha256 token)) s.reset_tokens)
          | inr (k, e) ↦ elim (Option-cases (first (is_student k) (all s.students))) [
            | inl bad ↦ ground (
              arith,
              find_one_lem (is_usable now (env.sha256 token)) s.reset_tokens,
              find_one_lem (is_student k) s.students,
            )
            | inr (x, g) ↦
                let a = find_one_lem (is_usable now (env.sha256 token)) s.reset_tokens in
                let b = find_one_lem (is_student k) s.students in
                let own = own_id k (all s.students) x g in
                let same = id_of_first k (all s.students) x g in
                (
                  t,
                  x,
                  f,
                  ground (arith, a, b),
                  ground (arith, a, b),
                  ground (arith, a, b),
                  ground (arith, a, b),
                  own,
                  ground (arith, same),
                )
          ]
        ]
      ]

  -- Where `reset_password` succeeds, a usable reset token had the hash of the token; the
  -- student that it names has a password hash then that compares with the new password, and no
  -- refresh token of that student is left.
  pub reset_password-ok :
      (now : ℕ) (token p : String) (ip agent : Option String) (s : Auth db)
      → (reset_password db env now token p ip agent s).0 ≡ ok tt
      → (t : ResetToken) × (y : Student) × (first
            (is_usable now (env.sha256 token))
            (all s.reset_tokens)
          ≡ some t)
        × (to_object_id t.student_id ≡ some y.id)
        × (first (is_student y.id) (all (reset_password db env now token p ip agent s).1.students)
            ≡ some y)
        × (env.compare_password p y.password_hash ≡ true)
        × (tally
              (λ r. r.student_id === y.id)
              (all (reset_password db env now token p ip agent s).1.refresh_tokens)
            ≡ 0)
  reset_password-ok now token p ip agent s done =
      let (t, x, f, spent, gone, nt, put, own, named) =
        reset_password-done now token p ip agent s done in
      let change = put_password (env.hash_password (env.random s.drawn) p) in
      (
        t,
        change x,
        f,
        named,
        rw (put, all-update_one)
            (first-amend_found (is_student x.id) (is_student x.id) change (all s.students) x own own
              (text_refl x.id)),
        env.compare_password-hash_password (env.random s.drawn) p,
        rw (gone, all-delete_many)
            (tally-drop_all (λ r. r.student_id === x.id) (all s.refresh_tokens)),
      )

  unusable-raise :
      (now : ℕ) (token p : String) (ip agent : Option String) (s : Auth db)
      → is_blank token ≡ false
      → 8 ≤ utf16_length p
      → is_blank p ≡ false
      → first (is_usable now (env.sha256 token)) (all s.reset_tokens) ≡ none
      → (reset_password db env now token p ip agent s).0
        ≡ raise (bad_request "Invalid or expired reset token")
  unfolding reset_password
  unusable-raise now token p ip agent s nt long np f =
      ground (arith, find_one_lem (is_usable now (env.sha256 token)) s.reset_tokens)

  -- Where `reset_password` succeeds and at most one reset token has the hash of the token, a
  -- second call with the token is refused at any later time, with any new password of at least
  -- eight units.
  pub reset_password_once :
      (now later : ℕ) (token p q : String) (ip agent ip' agent' : Option String) (s : Auth db)
      → (reset_password db env now token p ip agent s).0 ≡ ok tt
      → tally (is_reset (env.sha256 token)) (all s.reset_tokens) ≤ 1
      → 8 ≤ utf16_length q
      → is_blank q ≡ false
      → (reset_password db env later token q ip' agent'
          (reset_password db env now token p ip agent s).1).0
        ≡ raise (bad_request "Invalid or expired reset token")
  reset_password_once now later token p q ip agent ip' agent' s done one long nq =
      let (t, x, f, spent, gone, nt, put, own, named) =
        reset_password-done now token p ip agent s done in
      unusable-raise later token q ip' agent' (reset_password db env now token p ip agent s).1 nt
        long nq
        (rw (spent, all-update_one)
          (spent-first now later (env.sha256 token) ip agent (all s.reset_tokens) t one f))

  -- Where a token is not empty and reads as a refresh token and at most one record has its
  -- hash, `refresh_token` refuses it after `logout` with it.
  pub logout-refresh_token :
      (now : ℕ) (token : String) (c : Claims) (s : Auth db)
      → is_blank token ≡ false
      → env.verify now token ≡ some c
      → is_kind "refresh" c ≡ true
      → tally (has_hash (env.sha256 token)) (all s.refresh_tokens) ≤ 1
      → (refresh_token db env now token (logout db env token s).1).0
        ≡ raise (unauthorized "Refresh token has been revoked or already used")
  unfolding refresh_token logout
  logout-refresh_token now token c s nt reads kind one =
      let gone : first (has_hash (env.sha256 token))
            (drop_first (has_hash (env.sha256 token)) (all s.refresh_tokens))
          ≡ none =
        tally_zero→first (has_hash (env.sha256 token)) _
          (tally-drop_first (has_hash (env.sha256 token)) (all s.refresh_tokens) one) in
      ground (
        arith,
        all-delete_one (has_hash (env.sha256 token)) s.refresh_tokens,
        find_one_lem (has_hash (env.sha256 token))
            (db.delete_one (has_hash (env.sha256 token)) s.refresh_tokens),
      )
