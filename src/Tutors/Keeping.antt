-- ===== src/Tutors/Keeping.antt =====
-- What the requests leave of the accounts: all but `create` keep each status.
use chain_verse_backend.Base.{
  ℕ, ◌+◌, ◌*◌, String, ◌≡◌, refl, ◌⊎◌, inl, inr, Option, none, some, arith, Option-cases,
}
use chain_verse_backend.Http.{Failure, cast_error, not_found, Result-cases, ok, raise}
use chain_verse_backend.Mongo.{Mongo}
use chain_verse_backend.StudentAuth.{
  Services, Claims, AuthMail, reset_token_expiry, RefreshToken, has_hash,
}
use chain_verse_backend.StudentAuth.Session.{revoke}
use chain_verse_backend.StudentAuth.Reset.{is_usable}
use chain_verse_backend.Tutors.{
  TutorAccount, TutorAuth, is_tutor, is_tutor_email, generate_tutor_pair, load_tutor, send_mail,
}
use chain_verse_backend.Tutors.Account.{
  UpdateTutorProfileDto, set_tutor_verified, assign_profile, verify_tutor_email, update_profile,
}
use chain_verse_backend.Tutors.Session.{
  login_tutor, refresh_tutor_token, logout_tutor, renew, deny, family_to_close,
}
use chain_verse_backend.Tutors.Reset.{
  put_tutor_reset, put_tutor_password, forget_tutor_password, reset_tutor_password,
}

module _ (db : Mongo) (env : Services) where
  open db use {all, insert, update_one, object_id, find_one_lem, all-insert, all-update_one}

  -- The accounts stay, or one of them is changed and keeps its status.
  pub record Edit (s t : TutorAuth db) : Type 0 where
    pub key : String
    pub change : TutorAccount → TutorAccount
    pub keeps : (x : TutorAccount) → (change x).account_status ≡ x.account_status
    pub edited : t.tutors ≡ update_one (is_tutor key) change s.tutors

  abbrev pub Keeps : TutorAuth db → TutorAuth db → Type 0
  Keeps s t = (t.tutors ≡ s.tutors) ⊎ Edit s t

  pub generate_tutor_pair-tutors :
      (now : ℕ) (x : TutorAccount) (fam : Option String) (s : TutorAuth db)
      → (generate_tutor_pair db env now x fam s).1.tutors ≡ s.tutors
  unfolding generate_tutor_pair
  generate_tutor_pair-tutors now x none s = ground arith
  generate_tutor_pair-tutors now x (some f) s = ground arith

  pub login_tutor-tutors :
      (now : ℕ) (email p : String) (s : TutorAuth db)
      → (login_tutor db env now email p s).1.tutors ≡ s.tutors
  unfolding login_tutor
  login_tutor-tutors now email p s =
      elim (Option-cases (db.find_one (is_tutor_email email) s.tutors)) [
        | inl missing ↦ ground arith
        | inr (x, found) ↦ ground (arith, generate_tutor_pair-tutors now x none s)
      ]

  pub load_tutor_cases :
      (id : String) (s : TutorAuth db)
      → ((e : Failure) × (load_tutor db env id s ≡ (raise e, s)))
        ⊎ ((x : TutorAccount) × (load_tutor db env id s ≡ (ok x, s)))
  unfolding load_tutor
  load_tutor_cases id s = elim (Option-cases (db.to_object_id id)) [
    | inl bad ↦ inl (cast_error id, ground arith)
    | inr (k, e) ↦ elim (Option-cases (db.find_one (is_tutor k) s.tutors)) [
      | inl missing ↦ inl (not_found "Tutor not found", ground arith)
      | inr (x, found) ↦ inr (x, ground arith)
    ]
  ]

  renew-tutors :
      (now : ℕ) (t : RefreshToken) (s : TutorAuth db) → (renew db env now t s).1.tutors ≡ s.tutors
  unfolding renew
  renew-tutors now t s =
      let used : TutorAuth db = record s {
        refresh_tokens = update_one (has_hash t.token_hash) revoke s.refresh_tokens;
      } in
      elim (load_tutor_cases t.student_id used) [
        | inl (e, bad) ↦ ground arith
        | inr (x, found) ↦
            ground (arith, generate_tutor_pair-tutors now x (some t.token_family) used)
      ]

  deny-tutors :
      (c : Claims) (t : Option RefreshToken) (s : TutorAuth db)
      → (deny db env c t s).1.tutors ≡ s.tutors
  unfolding deny
  deny-tutors c t s = elim (Option-cases (family_to_close c t)) [
    | inl e ↦ rw e refl
    | inr (f, e) ↦ rw e refl
  ]

  pub refresh_tutor_token-tutors :
      (now : ℕ) (token : String) (s : TutorAuth db)
      → (refresh_tutor_token db env now token s).1.tutors ≡ s.tutors
  unfolding refresh_tutor_token
  refresh_tutor_token-tutors now token s = elim (Option-cases (env.verify now token)) [
    | inl bad ↦ ground arith
    | inr (c, reads) ↦
        elim (Option-cases (db.find_one (has_hash (env.sha256 token)) s.refresh_tokens)) [
          | inl missing ↦ ground (arith, deny-tutors c none s)
          | inr (t, found) ↦ ground (arith, deny-tutors c (some t) s, renew-tutors now t s)
        ]
  ]

  pub logout_tutor-tutors :
      (token : String) (s : TutorAuth db) → (logout_tutor db env token s).1.tutors ≡ s.tutors
  unfolding logout_tutor
  logout_tutor-tutors token s = ground arith

  -- The accounts stay, or one is changed in a way that keeps statuses.
  Keeps-edit :
      (key : String) (change : TutorAccount → TutorAccount) (s t : TutorAuth db)
      → ((x : TutorAccount) → (change x).account_status ≡ x.account_status)
      → (t.tutors ≡ s.tutors) ⊎ (t.tutors ≡ update_one (is_tutor key) change s.tutors)
      → Keeps s t
  Keeps-edit key change s t keeps (inl same) = inl same
  Keeps-edit key change s t keeps (inr e) =
      inr (record { key = key; change = change; keeps = keeps; edited = e })

  pub verify_tutor_email-Keeps :
      (now : ℕ) (token : String) (s : TutorAuth db)
      → Keeps s (verify_tutor_email db env now token s).1
  unfolding verify_tutor_email
  verify_tutor_email-Keeps now token s = elim (Option-cases (env.verify now token)) [
    | inl bad ↦ inl (ground arith)
    | inr (c, reads) ↦ elim (Option-cases c.sub) [
      | inl bad ↦ inl (ground arith)
      | inr (id, named) ↦ elim (load_tutor_cases id s) [
        | inl (e, bad) ↦ inl (ground arith)
        | inr (x, found) ↦
            Keeps-edit x.id set_tutor_verified s (verify_tutor_email db env now token s).1
              (λ y. refl) (ground arith)
      ]
    ]
  ]

  pub update_profile-Keeps :
      (id : String) (dto : UpdateTutorProfileDto) (s : TutorAuth db)
      → Keeps s (update_profile db env id dto s).1
  unfolding update_profile
  update_profile-Keeps id dto s = elim (load_tutor_cases id s) [
    | inl (e, bad) ↦ inl (ground arith)
    | inr (x, found) ↦ inr (record {
      key = x.id;
      change = assign_profile dto;
      keeps = λ y. refl;
      edited = ground arith;
    })
  ]

  send_mail-tutors :
      (to : String) (m : AuthMail) (s : TutorAuth db)
      → (send_mail db env to m s).1.tutors ≡ s.tutors
  unfolding send_mail
  send_mail-tutors to m s = elim (Result-cases (env.deliver to)) [
    | inl (e, bad) ↦ ground arith
    | inr (v, good) ↦ ground arith
  ]

  pub forget_tutor_password-Keeps :
      (now : ℕ) (email : String) (ip agent : Option String) (s : TutorAuth db)
      → Keeps s (forget_tutor_password db env now email ip agent s).1
  unfolding forget_tutor_password
  forget_tutor_password-Keeps now email ip agent s =
      elim (Option-cases (db.find_one (is_tutor_email email) s.tutors)) [
        | inl missing ↦ inl (ground arith)
        | inr (x, found) ↦
            let hash : String = env.sha256 (env.random s.drawn) in
            let change = put_tutor_reset hash (now + reset_token_expiry * 1000) in
            Keeps-edit x.id change s (forget_tutor_password db env now email ip agent s).1
              (λ y. refl)
              (elim (Result-cases (env.deliver x.email)) [
                | inl (e, bad) ↦ ground arith
                | inr (v, good) ↦ ground arith
              ])
      ]

  pub reset_tutor_password-Keeps :
      (now : ℕ) (token p : String) (ip agent : Option String) (s : TutorAuth db)
      → Keeps s (reset_tutor_password db env now token p ip agent s).1
  unfolding reset_tutor_password
  reset_tutor_password-Keeps now token p ip agent s =
      elim (Option-cases (db.find_one (is_usable now (env.sha256 token)) s.reset_tokens)) [
        | inl missing ↦ inl (ground arith)
        | inr (t, usable) ↦ elim (load_tutor_cases t.student_id s) [
          | inl (e, bad) ↦ inl (ground arith)
          | inr (x, found) ↦
              Keeps-edit x.id (put_tutor_password (env.hash_password (env.random s.drawn) p)) s
                (reset_tutor_password db env now token p ip agent s).1 (λ y. refl) (ground arith)
        ]
      ]
