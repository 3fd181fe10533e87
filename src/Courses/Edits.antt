-- ===== src/Courses/Edits.antt =====
-- What each operation on a course does to the collection: nothing, or one change of the live course
-- with the given id, under the operation's guards.
use chain_verse_backend.Base.{
  ℕ, String, ◌≡◌, ◌⊎◌, inl, inr, Bool, true, false, not, ◌&&◌, Option, some, ◌===◌, arith, eq_iff,
  first, Option-cases, Bool-cases, or_default, is_blank, utf16_length, is_empty, ltb, ◌||◌,
}
use chain_verse_backend.Http.{Failure, ok, raise, cast_error}
use chain_verse_backend.Mongo.{Mongo}
use chain_verse_backend.Market.{Status, is_published, Course, State, has_id, is_live}
use chain_verse_backend.CourseForms.{
  UpdateCourseDto, Decision, is_guarded, lacks_required, revise, count_student, deleter, is_pending,
  is_submittable, is_publishable, set_status, has_closed_field, apply_decision, deleted_now,
  missing, published_at_time,
}
use chain_verse_backend.Courses.{
  find_one, update, submit_for_review, review, publish, unpublish, delete, enroll_student,
}

module _ (db : Mongo) where
  open db use {Store, all, update_one, to_object_id, find_one_lem}

  -- The course that a request by this id works on.
  abbrev pub Live : String → State db → Course → Type 0
  Live id s c =
      (co : String) × (to_object_id id ≡ some co)
      × (first (λ x. has_id co x && is_live x) (all s.courses) ≡ some c)

  -- No change of the courses, or one of the course that was loaded, which passed the guards.
  abbrev pub Change :
      String → (Course → Course → Course) → (Course → Type 0) → State db → Store Course → Type 0
  Change id f Guard s cs =
      (cs ≡ s.courses)
      ⊎ ((c : Course) × Guard c × Live id s c × (cs ≡ update_one (has_id c.id) (f c) s.courses))

  abbrev pub Owned : String → Bool → Course → Type 0
  Owned tutor is_admin c = (is_admin ≡ true) ⊎ (c.tutor_id ≡ tutor)

  pub find_one_cases :
      (id : String) (s : State db)
      → ((e : Failure) × (find_one db id s ≡ (raise e, s)))
        ⊎ ((c : Course) × Live id s c × (find_one db id s ≡ (ok c, s)))
  unfolding find_one
  find_one_cases id s = elim (Option-cases (to_object_id id)) [
    | inl bad ↦ inl (cast_error id, ground arith)
    | inr (co, ec) ↦
        let p : Course → Bool = λ x. has_id co x && is_live x in
        elim (Option-cases (first p (all s.courses))) [
          | inl bad ↦ inl (missing id, ground (arith, find_one_lem p s.courses))
          | inr (c, f) ↦ inr (c, (co, ec, f), ground (arith, find_one_lem p s.courses))
        ]
  ]

  module _ (now : ℕ) (id tutor : String) (is_admin : Bool) (s : State db) where
    pub publish-Change :
        Change id
          (λ _. published_at_time now)
          (λ c. (is_publishable c.status ≡ true) × Owned tutor is_admin c)
          s
          (publish db now id tutor is_admin s).1.courses
    unfolding publish
    publish-Change = elim (find_one_cases id s) [
      | inl (e, bad) ↦ inl (ground arith)
      | inr (c, live, f) ↦ elim (Bool-cases (not is_admin && not (c.tutor_id === tutor))) [
        | inl bad ↦ inl (ground arith)
        | inr h0 ↦ elim (Bool-cases (is_publishable c.status)) [
          | inr bad ↦ inl (ground arith)
          | inl h8 ↦
              inr (c, (ground arith, ground (arith, eq_iff c.tutor_id tutor)), live, ground arith)
        ]
      ]
    ]

  module _ (id tutor : String) (is_admin : Bool) (s : State db) where
    pub unpublish-Change :
        Change id
          (λ _. set_status Status.unpublished)
          (λ c. (is_published c.status ≡ true) × Owned tutor is_admin c)
          s
          (unpublish db id tutor is_admin s).1.courses
    unfolding unpublish
    unpublish-Change = elim (find_one_cases id s) [
      | inl (e, bad) ↦ inl (ground arith)
      | inr (c, live, f) ↦ elim (Bool-cases (not is_admin && not (c.tutor_id === tutor))) [
        | inl bad ↦ inl (ground arith)
        | inr h0 ↦ elim (Bool-cases (is_published c.status)) [
          | inr bad ↦ inl (ground arith)
          | inl h8 ↦
              inr (c, (ground arith, ground (arith, eq_iff c.tutor_id tutor)), live, ground arith)
        ]
      ]
    ]

  module _ (id : String) (dto : UpdateCourseDto) (tutor : String) (is_admin : Bool)
      (s : State db) where
    pub update-Change :
        Change id
          (revise dto is_admin)
          (λ c.
            ((is_guarded is_admin c && has_closed_field dto.keys) ≡ false) × Owned tutor is_admin c)
          s
          (update db id dto tutor is_admin s).1.courses
    unfolding update
    update-Change = elim (find_one_cases id s) [
      | inl (e, bad) ↦ inl (ground arith)
      | inr (c, live, f) ↦ elim (Bool-cases (not is_admin && not (c.tutor_id === tutor))) [
        | inl bad ↦ inl (ground arith)
        | inr h0 ↦ elim (Bool-cases (is_guarded is_admin c && has_closed_field dto.keys)) [
          | inl bad ↦ inl (ground arith)
          | inr h8 ↦ elim (Bool-cases (lacks_required dto)) [
            | inl bad ↦ inl (ground arith)
            | inr complete ↦
                inr (c, (ground arith, ground (arith, eq_iff c.tutor_id tutor)), live, ground arith)
          ]
        ]
      ]
    ]

  module _ (now : ℕ) (id tutor : String) (is_admin : Bool) (reason : Option String)
      (s : State db) where
    pub delete-Change :
        Change id
          (λ _.
            deleted_now now (deleter is_admin tutor) (or_default reason "User requested deletion"))
          (λ c. ((ltb 0 c.total_enrollments && not is_admin) ≡ false) × Owned tutor is_admin c)
          s
          (delete db now id tutor is_admin reason s).1.courses
    unfolding delete
    delete-Change = elim (find_one_cases id s) [
      | inl (e, bad) ↦ inl (ground arith)
      | inr (c, live, f) ↦ elim (Bool-cases (not is_admin && not (c.tutor_id === tutor))) [
        | inl bad ↦ inl (ground arith)
        | inr h0 ↦ elim (Bool-cases (ltb 0 c.total_enrollments && not is_admin)) [
          | inl bad ↦ inl (ground arith)
          | inr h8 ↦
              inr (c, (ground arith, ground (arith, eq_iff c.tutor_id tutor)), live, ground arith)
        ]
      ]
    ]

  module _ (id tutor : String) (s : State db) where
    pub submit_for_review-Change :
        Change id
          (λ _. set_status Status.pending)
          (λ c. (is_submittable c.status ≡ true) × (c.tutor_id ≡ tutor))
          s
          (submit_for_review db id tutor s).1.courses
    unfolding submit_for_review
    submit_for_review-Change = elim (find_one_cases id s) [
      | inl (e, bad) ↦ inl (ground arith)
      | inr (c, live, f) ↦ elim (Bool-cases (not (c.tutor_id === tutor))) [
        | inl bad ↦ inl (ground arith)
        | inr h0 ↦ elim (Bool-cases (is_submittable c.status)) [
          | inr bad ↦ inl (ground arith)
          | inl h8 ↦
              elim (Bool-cases (is_blank c.description || ltb (utf16_length c.description) 50)) [
                | inl bad ↦ inl (ground arith)
                | inr h18 ↦ elim (Bool-cases (is_empty c.curriculum)) [
                  | inl bad ↦ inl (ground arith)
                  | inr h30 ↦ inr (
                    c,
                    (ground arith, ground (arith, eq_iff c.tutor_id tutor)),
                    live,
                    ground arith,
                  )
                ]
              ]
        ]
      ]
    ]

  module _ (now : ℕ) (id : String) (decision : Decision) (reason : Option String)
      (s : State db) where
    pub review-Change :
        Change id
          (λ _. apply_decision now decision reason)
          (λ c. is_pending c.status ≡ true)
          s
          (review db now id decision reason s).1.courses
    unfolding review
    review-Change = elim (find_one_cases id s) [
      | inl (e, bad) ↦ inl (ground arith)
      | inr (c, live, f) ↦ elim (Bool-cases (is_pending c.status)) [
        | inr bad ↦ inl (ground arith)
        | inl h0 ↦ inr (c, ground arith, live, ground arith)
      ]
    ]

  module _ (id tutor : String) (s : State db) where
    pub enroll_student-Change :
        Change id count_student (λ _. Unit) s (enroll_student db id tutor s).1.courses
    unfolding enroll_student
    enroll_student-Change = elim (find_one_cases id s) [
      | inl (e, bad) ↦ inl (ground arith)
      | inr (c, live, f) ↦ inr (c, tt, live, ground arith)
    ]

  pub find_one-state : (id : String) (s : State db) → (find_one db id s).1 ≡ s
  find_one-state id s = elim (find_one_cases id s) [
    | inl (e, bad) ↦ rw bad
    | inr (c, live, f) ↦ rw f
  ]
