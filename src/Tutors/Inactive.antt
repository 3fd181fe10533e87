-- ===== src/Tutors/Inactive.antt =====
-- Sequences of requests, and the status of the accounts: new ones are pending.
use chain_verse_backend.Base.{
  ℕ, ◌+◌, String, ◌≡◌, ◌≢◌, refl, ◌⊎◌, inl, inr, false, Option, none, List, [], ◌∷◌, ◌++◌, arith,
  first, All, All-append, All-amend_first, All-first, Option-cases,
}
use chain_verse_backend.Http.{Result-cases, ok}
use chain_verse_backend.Mongo.{Mongo}
use chain_verse_backend.StudentAuth.{Services, AuthMail, verification_token_expiry, TokenPair}
use chain_verse_backend.Tutors.{
  TutorAccount, TutorView, TutorAuth, is_active, is_tutor, is_tutor_email,
  tutor_verification_claims,
}
use chain_verse_backend.Tutors.Account.{
  CreateTutorDto, UpdateTutorProfileDto, new_tutor, put_tutor_token, create_tutor,
  verify_tutor_email, update_profile,
}
use chain_verse_backend.Tutors.Session.{login_tutor, refresh_tutor_token, logout_tutor}
use chain_verse_backend.Tutors.Reset.{forget_tutor_password, reset_tutor_password}
use chain_verse_backend.Tutors.Keeping.{
  Keeps, login_tutor-tutors, refresh_tutor_token-tutors, logout_tutor-tutors,
  generate_tutor_pair-tutors, verify_tutor_email-Keeps, update_profile-Keeps,
  forget_tutor_password-Keeps, reset_tutor_password-Keeps,
}

-- The requests that change the state, with the time of each.
pub data TutorRequest : Type 0 where
  create : ℕ → CreateTutorDto → TutorRequest
  verify_email : ℕ → String → TutorRequest
  login : ℕ → (email password : String) → TutorRequest
  refresh : ℕ → String → TutorRequest
  logout : String → TutorRequest
  forget_password : ℕ → String → (ip agent : Option String) → TutorRequest
  reset_password : ℕ → (token password : String) → (ip agent : Option String) → TutorRequest
  profile : String → UpdateTutorProfileDto → TutorRequest

abbrev pub IsIdle : TutorAccount → Type 0
IsIdle x = is_active x.account_status ≡ false

module _ (db : Mongo) (env : Services) where
  open db use {all, insert, update_one, object_id, find_one_lem, all-insert, all-update_one}

  unfoldable pub serve_tutor : TutorRequest → TutorAuth db → TutorAuth db
  serve_tutor (TutorRequest.create now dto) s = (create_tutor db env now dto s).1
  serve_tutor (TutorRequest.verify_email now token) s = (verify_tutor_email db env now token s).1
  serve_tutor (TutorRequest.login now email p) s = (login_tutor db env now email p s).1
  serve_tutor (TutorRequest.refresh now token) s = (refresh_tutor_token db env now token s).1
  serve_tutor (TutorRequest.logout token) s = (logout_tutor db env token s).1
  serve_tutor (TutorRequest.forget_password now email ip agent) s =
      (forget_tutor_password db env now email ip agent s).1
  serve_tutor (TutorRequest.reset_password now token p ip agent) s =
      (reset_tutor_password db env now token p ip agent s).1
  serve_tutor (TutorRequest.profile id dto) s = (update_profile db env id dto s).1

  unfoldable pub serve_tutors : List TutorRequest → TutorAuth db → TutorAuth db
  serve_tutors [] s = s
  serve_tutors (r ∷ rs) s = serve_tutors rs (serve_tutor r s)

  abbrev pub IsInactive : TutorAuth db → Type 0
  IsInactive s = All IsIdle (all s.tutors)

  Keeps-IsInactive : (s t : TutorAuth db) → Keeps db env s t → IsInactive s → IsInactive t
  Keeps-IsInactive s t (inl same) h = rw same h
  Keeps-IsInactive s t (inr e) h =
      rw (e.edited, all-update_one)
        (All-amend_first IsIdle (is_tutor e.key) e.change (all s.tutors) (λ x i. rw (e.keeps x) i)
          h)

  create_tutor_cases :
      (now : ℕ) (dto : CreateTutorDto) (s : TutorAuth db)
      → let id : String = object_id s.minted in
        let x : TutorAccount =
          new_tutor now id dto (env.hash_password (env.random s.drawn) dto.password) in
        let token : String = env.sign now (tutor_verification_claims x) verification_token_expiry in
        ((create_tutor db env now dto s).1.tutors ≡ s.tutors)
        ⊎ ((create_tutor db env now dto s).1.tutors
            ≡ update_one (is_tutor id) (put_tutor_token now token) (insert x s.tutors))
  unfolding create_tutor
  create_tutor_cases now dto s =
      let id : String = object_id s.minted in
      let x : TutorAccount =
        new_tutor now id dto (env.hash_password (env.random s.drawn) dto.password) in
      let token : String = env.sign now (tutor_verification_claims x) verification_token_expiry in
      let mailed : TutorAuth db = record s {
        tutors = update_one (is_tutor id) (put_tutor_token now token) (insert x s.tutors);
        mails = s.mails ++ AuthMail.verification dto.email token ∷ [];
        minted = s.minted + 1;
        drawn = s.drawn + 1;
      } in
      elim (Result-cases (env.deliver dto.email)) [
        | inl (e, bad) ↦ ground arith
        | inr (v, good) ↦
            ground (
              arith,
              generate_tutor_pair-tutors db env now (put_tutor_token now token x) none mailed,
            )
      ]

  create_tutor-IsInactive :
      (now : ℕ) (dto : CreateTutorDto) (s : TutorAuth db)
      → IsInactive s
      → IsInactive (create_tutor db env now dto s).1
  create_tutor-IsInactive now dto s h = elim (create_tutor_cases now dto s) [
    | inl same ↦ rw same h
    | inr put ↦
        rw (put, all-update_one, all-insert)
          (All-amend_first IsIdle (is_tutor (object_id s.minted)) _ (all s.tutors ++ _ ∷ [])
            (λ x i. i) (All-append IsIdle (all s.tutors) _ h (refl, tt)))
  ]

  serve_tutor-IsInactive :
      (r : TutorRequest) (s : TutorAuth db) → IsInactive s → IsInactive (serve_tutor r s)
  unfolding serve_tutor
  serve_tutor-IsInactive (TutorRequest.create now dto) s h = create_tutor-IsInactive now dto s h
  serve_tutor-IsInactive (TutorRequest.verify_email now token) s h =
      Keeps-IsInactive s _ (verify_tutor_email-Keeps db env now token s) h
  serve_tutor-IsInactive (TutorRequest.login now email p) s h =
      rw (login_tutor-tutors db env now email p s) h
  serve_tutor-IsInactive (TutorRequest.refresh now token) s h =
      rw (refresh_tutor_token-tutors db env now token s) h
  serve_tutor-IsInactive (TutorRequest.logout token) s h = rw (logout_tutor-tutors db env token s) h
  serve_tutor-IsInactive (TutorRequest.forget_password now email ip agent) s h =
      Keeps-IsInactive s _ (forget_tutor_password-Keeps db env now email ip agent s) h
  serve_tutor-IsInactive (TutorRequest.reset_password now token p ip agent) s h =
      Keeps-IsInactive s _ (reset_tutor_password-Keeps db env now token p ip agent s) h
  serve_tutor-IsInactive (TutorRequest.profile id dto) s h =
      Keeps-IsInactive s _ (update_profile-Keeps db env id dto s) h

  login_tutor-IsInactive :
      (now : ℕ) (email p : String) (s : TutorAuth db) (v : TutorView × TokenPair)
      → IsInactive s
      → (login_tutor db env now email p s).0 ≢ ok v
  unfolding login_tutor
  login_tutor-IsInactive now email p s v h done =
      elim (Option-cases (first (is_tutor_email email) (all s.tutors))) [
        | inl missing ↦ ground (arith, find_one_lem (is_tutor_email email) s.tutors)
        | inr (x, found) ↦ ground (
          arith,
          find_one_lem (is_tutor_email email) s.tutors,
          All-first IsIdle (is_tutor_email email) (all s.tutors) x h found,
        )
      ]

  -- From a state in which no account of a tutor is active, after any sequence of requests of
  -- the service none is, and `login_tutor` succeeds for no address and no password.
  pub serve_tutors-IsInactive :
      (rs : List TutorRequest) (s : TutorAuth db)
      → IsInactive s
      → IsInactive (serve_tutors rs s)
        × ((now : ℕ) (email p : String) (v : TutorView × TokenPair)
            → (login_tutor db env now email p (serve_tutors rs s)).0 ≢ ok v)
  unfolding serve_tutors
  serve_tutors-IsInactive [] s h = (h, λ now email p v. login_tutor-IsInactive now email p s v h)
  serve_tutors-IsInactive (r ∷ rs) s h =
      serve_tutors-IsInactive rs (serve_tutor r s) (serve_tutor-IsInactive r s h)
